-- ===== src/Resume.antt =====
-- bt/src/resume.rs: the pieces that we have, kept in a file beside the download. The file's contents
-- are the model's file, `none` where reading it fails; what a write of it makes fail is left out.
pub mod Saved
use btget.Prelude.{
  ℕ, Bool, true, false, List, [], ◌∷◌, Option, none, some, ◌==◌, if◌then◌else◌, Bytes, ascii,
  bytes_eq, Result, ok, err, ◌++◌,
}
use btget.Prelude.Int.{pos, negsuc}
use btget.Bencode as Bencode
use btget.Bencode.{Value, bytes, int, list, dict, Entries, no_entries, get, insert, encode, decode}
use btget.Pieces.Bitfield
use btget.Pieces.Bitfield.{Bitfield, BitfieldError}

-- The name of the file in the output directory.
unfoldable pub state_file : Bytes → Bytes
state_file name = ascii "." ++ (name ++ ascii ".resume")

abbrev pub state_entries : Bytes → Bitfield → Entries
state_entries info_hash have =
    insert (ascii "pieces") (int (pos have.pieces))
      (insert (ascii "have") (bytes have.bits) (insert (ascii "hash") (bytes info_hash) no_entries))

-- The contents that are written.
unfoldable pub save : Bytes → Bitfield → Bytes
unfolding encode insert
save info_hash have = encode (dict (state_entries info_hash have))

abbrev pub dict_of : Result Value Bencode.Error → Option Entries
dict_of (ok (dict map)) = some map
dict_of _ = none

abbrev pub hash_is : Bytes → Option Value → Bool
hash_is info_hash (some (bytes h)) = bytes_eq h info_hash
hash_is info_hash _ = false

abbrev pub pieces_are : ℕ → Option Value → Bool
pieces_are pieces (some (int (pos n))) = n == pieces
pieces_are pieces _ = false

abbrev pub bitfield_ok : Result Bitfield BitfieldError → Option Bitfield
bitfield_ok (ok b) = some b
bitfield_ok (err e) = none

abbrev pub have_field : ℕ → Option Value → Option Bitfield
have_field pieces (some (bytes bits)) = bitfield_ok (Bitfield.from_bytes bits pieces)
have_field pieces _ = none

unfoldable pub load_entries : Bytes → ℕ → Option Entries → Option Bitfield
unfolding get
load_entries info_hash pieces none = none
load_entries info_hash pieces (some top) =
    if hash_is info_hash (get (ascii "hash") top)
    then (if pieces_are pieces (get (ascii "pieces") top)
        then have_field pieces (get (ascii "have") top)
        else none)
    else none

unfoldable pub load : Option Bytes → Bytes → ℕ → Option Bitfield
unfolding load_entries decode
load none info_hash pieces = none
load (some raw) info_hash pieces = load_entries info_hash pieces (dict_of (decode raw))
