-- ===== src/Resume/Saved.antt =====
-- What resume.rs saves is what it loads.
use btget.Prelude.{
  ◌^◌, ◌<◌, ◌≡◌, refl, some, arith, length, Bytes, bytes_eq, bytes_lt, bytes_eq_refl, ==_refl,
}
use btget.Bencode.{dict, get, insert, encode}
use btget.Bencode.Print.{IsCanonical}
use btget.Bencode.Sound.{decode-eq-ok_iff}
use btget.Pieces.Bitfield.{Bitfield, IsValid}
use btget.Pieces.Bitfield.Laws.{from_bytes-bits}
use btget.Resume.{state_entries, save, load_entries, load}

state_entries-IsCanonical :
    (info_hash : Bytes) (have : Bitfield)
    → length info_hash ≡ 20
    → have.pieces < 2 ^ 32
    → IsValid have
    → IsCanonical 0 (dict (state_entries info_hash have))
unfolding insert bytes_eq bytes_lt
state_entries-IsCanonical info_hash have h p v = (
  omega arith,
  (
    omega arith,
    omega arith,
    refl,
    (omega arith, omega (arith, h)),
    (
      omega arith,
      omega arith,
      refl,
      (omega arith, omega (arith, v.sized)),
      (omega arith, omega arith, refl, (omega arith, omega arith), tt),
    ),
  ),
)

load_entries-state_entries :
    (info_hash : Bytes) (have : Bitfield)
    → IsValid have
    → load_entries info_hash have.pieces (some (state_entries info_hash have)) ≡ some have
unfolding load_entries insert get bytes_eq bytes_lt
load_entries-state_entries info_hash have v =
    rw (bytes_eq_refl info_hash, ==_refl have.pieces, from_bytes-bits have v) refl

-- What was saved for a torrent is loaded for it again, for a valid bitfield of a u32 of pieces.
pub load-save :
    (info_hash : Bytes) (have : Bitfield)
    → length info_hash ≡ 20
    → have.pieces < 2 ^ 32
    → IsValid have
    → load (some (save info_hash have)) info_hash have.pieces ≡ some have
unfolding load save
load-save info_hash have h p v =
    rw
      ((decode-eq-ok_iff (encode (dict (state_entries info_hash have)))
          (dict (state_entries info_hash have))).1
        (state_entries-IsCanonical info_hash have h p v, refl))
      (load_entries-state_entries info_hash have v)
