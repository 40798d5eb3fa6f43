-- ===== src/Bencode/Map.antt =====
-- The dictionary of bencode.rs as a map: the laws of its `get` and `insert`, and its order.
use btget.Prelude.{
  ◌≡◌, refl, ap, true, false, Option, none, some, arith, if◌then◌else◌, Bytes, bytes_eq, bytes_lt,
  bytes_eq→eq, bytes_eq_refl, bytes_lt_irrefl, bytes_lt_trans, bytes_lt_asymm, bytes_lt_total,
  Bool-cases, inl, inr,
}
use btget.Bencode.{Value, Entries, no_entries, entry, get, insert, is_after}

-- One map's entries before another's.
unfoldable pub append : Entries → Entries → Entries
append no_entries gs = gs
append (entry k v fs) gs = entry k v (append fs gs)

pub append-no_entries : (fs : Entries) → append fs no_entries ≡ fs
unfolding append
append-no_entries no_entries = refl
append-no_entries (entry k v fs) = ap (entry k v) (append-no_entries fs)

pub append_assoc : (fs gs hs : Entries) → append (append fs gs) hs ≡ append fs (append gs hs)
unfolding append
append_assoc no_entries gs hs = refl
append_assoc (entry k v fs) gs hs = ap (entry k v) (append_assoc fs gs hs)

-- The keys rise, and lie above `last`, if there is one.
abbrev pub IsSortedAfter : Option Bytes → Entries → Type 0
IsSortedAfter last no_entries = Unit
IsSortedAfter last (entry k v fs) = (is_after last k ≡ true) × IsSortedAfter (some k) fs

-- Every key lies below `k`.
abbrev pub AllBelow : Bytes → Entries → Type 0
AllBelow k no_entries = Unit
AllBelow k (entry j v fs) = (bytes_lt j k ≡ true) × AllBelow k fs

pub AllBelow-trans :
    (j k : Bytes) (fs : Entries) → bytes_lt j k ≡ true → AllBelow j fs → AllBelow k fs
AllBelow-trans j k no_entries h b = tt
AllBelow-trans j k (entry i v fs) h b = (bytes_lt_trans i j k b.0 h, AllBelow-trans j k fs h b.1)

pub AllBelow-append_one :
    (k j : Bytes) (v : Value) (fs : Entries)
    → AllBelow k fs
    → bytes_lt j k ≡ true
    → AllBelow k (append fs (entry j v no_entries))
unfolding append
AllBelow-append_one k j v no_entries b h = (h, tt)
AllBelow-append_one k j v (entry i w fs) b h = (b.0, AllBelow-append_one k j v fs b.1 h)

bytes_eq_of_lt : (j k : Bytes) → bytes_lt j k ≡ true → bytes_eq k j ≡ false
bytes_eq_of_lt j k h = elim (Bool-cases (bytes_eq k j)) [
  | inl e ↦ cc (bytes_lt_irrefl k, bytes_eq→eq k j e)
  | inr e ↦ e
]

-- A key above all others goes to the no_entries.
pub insert-append :
    (k : Bytes) (v : Value) (fs : Entries)
    → AllBelow k fs
    → insert k v fs ≡ append fs (entry k v no_entries)
unfolding insert append
insert-append k v no_entries b = refl
insert-append k v (entry j w fs) b =
    ground (arith, bytes_eq_of_lt j k, bytes_lt_asymm j k, insert-append k v fs)

-- `get` after `insert`, of maps in any order of keys.
pub get-insert :
    (j k : Bytes) (v : Value) (fs : Entries)
    → get j (insert k v fs) ≡ (if bytes_eq j k then some v else get j fs)
unfolding get insert
get-insert j k v no_entries = refl
get-insert j k v (entry i w fs) =
    ground (
      arith,
      bytes_eq→eq j k,
      bytes_eq→eq j i,
      bytes_eq→eq k i,
      bytes_eq_refl j,
      get-insert j k v fs,
    )

is_after-insert_key :
    (last : Option Bytes) (k : Bytes) (v : Value) (fs : Entries)
    → is_after last k ≡ true
    → IsSortedAfter last fs
    → IsSortedAfter last (insert k v fs)
unfolding insert
is_after-insert_key last k v no_entries h s = (h, tt)
is_after-insert_key last k v (entry j w fs) h s = elim (Bool-cases (bytes_eq k j)) [
  | inl e ↦ rw (e, insert) (h, rw (bytes_eq→eq k j e) s.1)
  | inr e ↦ elim (Bool-cases (bytes_lt k j)) [
    | inl l ↦ rw (e, insert, l) (h, (l, s.1))
    | inr l ↦
        rw (e, insert, l)
          (s.0, is_after-insert_key (some j) k v fs (bytes_lt_total j k l (ground arith)) s.1)
  ]
]

-- Insertion keeps the keys of a BTreeMap in order.
pub insert-IsSorted :
    (k : Bytes) (v : Value) (fs : Entries)
    → IsSortedAfter none fs
    → IsSortedAfter none (insert k v fs)
insert-IsSorted k v fs s = is_after-insert_key none k v fs refl s
