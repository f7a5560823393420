-- ===== src/Queue/Claims.antt =====
-- `claim_next` of sim/api/execution/queue.py: which run a worker gets, and that nobody else gets it.
pub mod Spares
pub mod Exclusive
use tirrad_exchange_system.Prelude.{
  All-map, ◌<◌, ℕ, ◌+◌, ◌-◌, ◌≤◌, ◌≡◌, refl, String, Bool, true, false, Option, none, some, List,
  [], ◌∷◌, inl, inr, ◌⊎◌, arith, select, find, In, All, All_at, All-intro, select-In, In-select,
  Option-cases, ◌==◌, eq_iff, ap, find-In, ltb, eqb, subst, sym, Bool-cases, ◌↔◌,
}
use tirrad_exchange_system.Prelude.Int.{ltb_ℤ, eqb_ℤ, eq_of_parts, ◌<ℤ◌}
use tirrad_exchange_system.Prelude.Text.{text_leb, text_leb_total, text_leb_trans}
use tirrad_exchange_system.Prelude.Sorting.{
  order_by, head_of, head_In, In-order_by, head-order_by, All-order_by_inv,
}
use tirrad_exchange_system.Prelude.Tables.{find-update_where, touched}
use tirrad_exchange_system.Queue.Types.{
  running, eq_status, QueueItem, SqliteRunQueue, is_run, seconds,
}
use tirrad_exchange_system.Queue.Runs.{
  get, is_claimable, claim_order, next_claimable, claimed, claim_row, claim_next,
}
use tirrad_exchange_system.Queue.Edits.{next_claimable-In}

claim_order_total : (a b : QueueItem) → (claim_order a b ≡ true) ⊎ (claim_order b a ≡ true)
unfolding claim_order
claim_order_total a b = ground (arith, text_leb_total a.run_id b.run_id)

claim_order_trans :
    (a b c : QueueItem) → claim_order a b ≡ true → claim_order b c ≡ true → claim_order a c ≡ true
unfolding claim_order
claim_order_trans a b c h k = ground (arith, text_leb_trans a.run_id b.run_id c.run_id)

-- The rows that a worker could get at a time.
abbrev pub claimable_at : SqliteRunQueue → ℕ → QueueItem → Bool
claimable_at q now = is_claimable now (now - seconds q.stale_after_seconds)

next_claimable-first :
    (q : SqliteRunQueue) (now : ℕ) {row : QueueItem}
    → next_claimable q now ≡ some row
    → All (λ x. claim_order row x ≡ true) (select (claimable_at q now) q.run_queue)
unfolding next_claimable
next_claimable-first q now e =
    head-order_by claim_order claim_order_total claim_order_trans
      (select (claimable_at q now) q.run_queue) e

-- A successful claim, taken apart.
pub claim_next-some :
    (q : SqliteRunQueue) (now : ℕ) (w : String) (item : QueueItem)
    → (claim_next q now w).1 ≡ some item
    → (row : QueueItem) × (next_claimable q now ≡ some row)
      × (item ≡ claimed now w row)
      × ((claim_next q now w).0 ≡ claim_row q now w row)
unfolding claim_next
claim_next-some q now w item e = elim (Option-cases (next_claimable q now)) [
  | inl n ↦ absurd (cc (rw (n, claim_next) at e))
  | inr (row, h) ↦ (row, h, ground arith, rw (h, claim_next))
]

-- ORDER BY priority DESC, created_at ASC, run_id ASC: `a` stands before `b`, or has the same keys.
abbrev pub ComesFirst : QueueItem → QueueItem → Type 0
ComesFirst a b =
    (b.priority <ℤ a.priority)
    ⊎ (a.priority ≡ b.priority)
      × ((a.created_at < b.created_at)
          ⊎ (a.created_at ≡ b.created_at) × (text_leb a.run_id b.run_id ≡ true))

claim_order-ComesFirst : (a b : QueueItem) → claim_order a b ≡ true → ComesFirst a b
unfolding claim_order
claim_order-ComesFirst a b h = ground (arith, h, eq_of_parts a.priority b.priority)

-- What `claim_next` hands out is a claimable row of the table, claimed, and no claimable row comes
-- before it: each has a lower priority, or the same one and a later creation, or the same one of both
-- and a run id that is not before its own.
pub claim_next-first :
    (q : SqliteRunQueue) (now : ℕ) (w : String) (item : QueueItem)
    → (claim_next q now w).1 ≡ some item
    → (row : QueueItem) × In row q.run_queue
      × (claimable_at q now row ≡ true)
      × (item ≡ claimed now w row)
      × All (λ x. ComesFirst row x) (select (claimable_at q now) q.run_queue)
claim_next-first q now w item e =
    let (row, h, same, _) = claim_next-some q now w item e in
    let (m, c) = next_claimable-In q now h in
    let first = next_claimable-first q now h in
    let order = claim_order-ComesFirst row in
    (
      row,
      m,
      c,
      same,
      All-map (λ x. claim_order row x ≡ true) (λ x. ComesFirst row x)
          (select (claimable_at q now) q.run_queue) order first,
    )

no_head : {A : Type 0} (xs : List A) → head_of xs ≡ none → All (λ (x : A). ⊥) xs
no_head [] e = tt
no_head (x ∷ xs) e = cc

next_claimable-none :
    (q : SqliteRunQueue) (now : ℕ)
    → next_claimable q now ≡ none
    → (x : QueueItem) → In x q.run_queue
    → claimable_at q now x ≡ true
    → ⊥
unfolding next_claimable
next_claimable-none q now e x m c =
    let rows = select (claimable_at q now) q.run_queue in
    All_at (λ y. ⊥) x rows
      (All-order_by_inv claim_order (λ y. ⊥) rows (no_head (order_by claim_order rows) e))
      (In-select (claimable_at q now) x q.run_queue m c)

-- `claim_next` hands out nothing, and leaves the tables as they are, exactly when no row of the
-- table is claimable.
pub claim_next-none :
    (q : SqliteRunQueue) (now : ℕ) (w : String)
    → (claim_next q now w ≡ (q, none)) ↔ All (λ x. claimable_at q now x ≡ false) q.run_queue
unfolding claim_next
claim_next-none q now w = (nothing, idle)
  where
    nothing : claim_next q now w ≡ (q, none) → All (λ x. claimable_at q now x ≡ false) q.run_queue
    nothing e =
        All-intro (λ x. claimable_at q now x ≡ false) q.run_queue
          λ x m. elim (Bool-cases (claimable_at q now x)) [
            | inl c ↦ absurd (next_claimable-none q now (ground arith) x m c)
            | inr c ↦ c
          ]

    idle : All (λ x. claimable_at q now x ≡ false) q.run_queue → claim_next q now w ≡ (q, none)
    idle h = elim (Option-cases (next_claimable q now)) [
      | inl e ↦ rw (e, claim_next)
      | inr (row, e) ↦
          let (m, c) = next_claimable-In q now e in
          let unfit = All_at (λ x. claimable_at q now x ≡ false) row q.run_queue h m in
          absurd (ground arith)
    ]
