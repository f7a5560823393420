-- ===== src/Verification/Normal/Stable.antt =====
-- `_normalize` of sim/tes_replay/verification.py gives a normal form.
use tirrad_exchange_system.Prelude.{
  ◌≡◌, refl, ap, String, Bool, true, false, inl, inr, Bool-cases, arith, if◌then◌else◌,
}
use tirrad_exchange_system.Prelude.Text.{text_leb, text_leb_total}
use tirrad_exchange_system.Json.{
  Value, null, bool, int, float, text, array, object, Items, nil, cons, Fields, end, field, one_of,
}
use tirrad_exchange_system.Verification.Normal.{
  timestamp_keys, insert_field, normalize, normalize_items, normalize_fields,
}

-- A key that stands before the first one.
abbrev IsBefore : String → Fields → Type 0
IsBefore k end = Unit
IsBefore k (field j w fs) = text_leb k j ≡ true

-- No key is a time stamp, the keys ascend, and the values are in normal form.
abbrev IsNormal : Fields → Type 0
IsNormal end = Unit
IsNormal (field k v fs) =
    (one_of k timestamp_keys ≡ false) × (normalize v ≡ v) × IsBefore k fs × IsNormal fs

insert_field-IsBefore :
    (k : String) (v : Value) (fs : Fields) → IsBefore k fs → insert_field k v fs ≡ field k v fs
unfolding insert_field
insert_field-IsBefore k v end h = refl
insert_field-IsBefore k v (field j w fs) h = rw h

IsBefore-insert_field :
    (j k : String) (v : Value) (fs : Fields)
    → text_leb j k ≡ true
    → IsBefore j fs
    → IsBefore j (insert_field k v fs)
unfolding insert_field
IsBefore-insert_field j k v end h b = h
IsBefore-insert_field j k v (field i w fs) h b = elim (Bool-cases (text_leb k i)) [
  | inl e ↦ rw e h
  | inr e ↦ rw e b
]

insert_field-IsNormal :
    (k : String) (v : Value) (fs : Fields)
    → one_of k timestamp_keys ≡ false
    → normalize v ≡ v
    → IsNormal fs
    → IsNormal (insert_field k v fs)
unfolding insert_field
insert_field-IsNormal k v end t n h = (t, n, tt, tt)
insert_field-IsNormal k v (field j w fs) t n (tj, nj, b, h) = elim (Bool-cases (text_leb k j)) [
  | inl e ↦ rw e (t, n, e, (tj, nj, b, h))
  | inr e ↦
      rw e (tj, nj, IsBefore-insert_field j k v fs (other e) b, insert_field-IsNormal k v fs t n h)
]
  where
    other : text_leb k j ≡ false → text_leb j k ≡ true
    other e = ground (arith, text_leb_total k j)

IsNormal-normalize_fields : (fs : Fields) → IsNormal fs → normalize_fields fs ≡ fs
unfolding normalize
IsNormal-normalize_fields end h = refl
IsNormal-normalize_fields (field k v fs) (t, n, b, h) =
    rw (t, n, IsNormal-normalize_fields fs h) (insert_field-IsBefore k v fs b)

unless_stamp-IsNormal :
    (k : String) (v : Value) (fs : Fields) (stamp : Bool)
    → one_of k timestamp_keys ≡ stamp
    → normalize v ≡ v
    → IsNormal fs
    → IsNormal (if stamp then fs else insert_field k v fs)
unless_stamp-IsNormal k v fs true t n h = h
unless_stamp-IsNormal k v fs false t n h = insert_field-IsNormal k v fs t n h

mutual
  unfolding normalize

  twice : (v : Value) → normalize (normalize v) ≡ normalize v
  twice null = refl
  twice (bool b) = refl
  twice (int n) = refl
  twice (float f) = refl
  twice (text s) = refl
  twice (array xs) = ap array (twice_items xs)
  twice (object fs) =
      ap object (IsNormal-normalize_fields (normalize_fields fs) (normalize_fields-IsNormal fs))

  twice_items : (xs : Items) → normalize_items (normalize_items xs) ≡ normalize_items xs
  twice_items nil = refl
  twice_items (cons v vs) = rw (twice v, twice_items vs) refl

  normalize_fields-IsNormal : (fs : Fields) → IsNormal (normalize_fields fs)
  normalize_fields-IsNormal end = tt
  normalize_fields-IsNormal (field k v fs) =
      unless_stamp-IsNormal k (normalize v) (normalize_fields fs) (one_of k timestamp_keys) refl
        (twice v) (normalize_fields-IsNormal fs)

-- Normalising a value once or twice gives the same.
pub normalize-normalize : (v : Value) → normalize (normalize v) ≡ normalize v
normalize-normalize v = twice v
