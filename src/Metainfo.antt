-- ===== src/Metainfo.antt =====
-- bt/src/metainfo.rs: torrent files. A string is its bytes. Two functions that are not of the
-- repository are parameters: `is_utf8`, whether `std::str::from_utf8` accepts the bytes, and `sha1`.
pub mod Hex
pub mod Names
pub mod Valid
use btget.Prelude.{
  ℕ, zero, suc, ◌+◌, ◌*◌, ◌-◌, ◌/◌, ◌%◌, ◌^◌, Bool, true, false, not, ◌&&◌, ◌||◌, List, [], ◌∷◌,
  ◌++◌, Option, none, some, ltb, leb, ◌==◌, if◌then◌else◌, length, take, drop, is_empty, contains,
  Bytes, ascii, bytes_eq, Result, ok, err, ◌>>=◌, ◌>>◌, guard, ok_or, map_err, min,
}
use btget.Prelude.Int.{ℤ, pos, negsuc}
use btget.Bencode as Bencode
use btget.Bencode.{Value, bytes, int, list, dict, Items, nil, cons, Entries, get, encode, decode}

abbrev pub max_piece_length : ℕ
max_piece_length = 32 * 2 ^ 20

pub record FileEntry : Type 0 where
  pub path : List Bytes
  pub len : ℕ

pub record Metainfo : Type 0 where
  pub trackers : List (List Bytes)
  pub info_hash : Bytes
  pub name : Bytes
  pub piece_length : ℕ
  pub pieces : List Bytes
  pub files : List FileEntry
  pub total_length : ℕ

pub data Error : Type 0 where
  bencode : Bencode.Error → Error
  not_a_dict bad_pieces bad_path bad_name bad_length : Error
  missing_key wrong_type : Bytes → Error
  piece_count_mismatch both_length_and_files no_files : Error

unfoldable pub check_component : Bytes → Result (Unit {0}) Error
check_component component =
    if is_empty component
      || (bytes_eq component (ascii ".")
          || (bytes_eq component (ascii "..")
              || (contains b'/' component || (contains b'\\' component || contains 0 component))))
    then err bad_path
    else ok tt

abbrev pub dict_entries : Error → Value → Result Entries Error
dict_entries e (dict map) = ok map
dict_entries e _ = err e

abbrev pub bytes_value : Bytes → Option Value → Result Bytes Error
bytes_value key (some (bytes b)) = ok b
bytes_value key (some _) = err (wrong_type key)
bytes_value key none = err (missing_key key)

unfoldable pub req_bytes : Entries → Bytes → Result Bytes Error
req_bytes map key = bytes_value key (get key map)

abbrev pub u64_value : Bytes → Option Value → Result ℕ Error
u64_value key (some (int (pos n))) = ok n
u64_value key (some _) = err (wrong_type key)
u64_value key none = err (missing_key key)

unfoldable pub req_u64 : Entries → Bytes → Result ℕ Error
req_u64 map key = u64_value key (get key map)

-- `slice::chunks`: no chunk is empty, so fuel for each element is enough.
unfoldable pub chunks : ℕ → ℕ → Bytes → List Bytes
chunks zero size xs = []
chunks (suc fuel) size xs =
    let rest = chunks fuel size (drop size xs) in if is_empty xs then [] else take size xs ∷ rest

-- `u64::checked_add` over the files.
unfoldable pub add_lengths : ℕ → List FileEntry → Result ℕ Error
add_lengths total [] = ok total
add_lengths total (file ∷ files) =
    if ltb (total + file.len) (2 ^ 64) then add_lengths (total + file.len) files else err bad_length

-- `u64::div_ceil`.
abbrev pub div_ceil : ℕ → ℕ → ℕ
div_ceil a b = a / b + (if a % b == 0 then 0 else 1)

module _ (is_utf8 : Bytes → Bool) where
  abbrev pub utf8 : Bytes → Option Bytes
  utf8 b = if is_utf8 b then some b else none

  abbrev pub component_text : Value → Result Bytes Error
  component_text (bytes b) = ok_or (utf8 b) bad_path
  component_text _ = err (wrong_type (ascii "path component"))

  unfoldable pub parse_path : Items → Result (List Bytes) Error
  unfolding check_component
  parse_path nil = ok []
  parse_path (cons item items) = do
    component ← component_text item
    check_component component
    path ← parse_path items
    ok (component ∷ path)

  abbrev pub path_items : Value → Result Items Error
  path_items (list items) = ok items
  path_items _ = err (wrong_type (ascii "path"))

  abbrev pub items_empty : Items → Bool
  items_empty nil = true
  items_empty (cons item items) = false

  unfoldable pub parse_file_entry : Value → Result FileEntry Error
  unfolding req_u64 parse_path
  parse_file_entry value = do
    map ← dict_entries (wrong_type (ascii "files entry")) value
    len ← req_u64 map (ascii "length")
    path_value ← ok_or (get (ascii "path") map) (missing_key (ascii "path"))
    items ← path_items path_value
    guard (not (items_empty items)) bad_path
    path ← parse_path items
    ok (record { path = path; len = len })

  unfoldable pub parse_file_entries : Items → Result (List FileEntry) Error
  unfolding parse_file_entry
  parse_file_entries nil = ok []
  parse_file_entries (cons item items) = do
    file ← parse_file_entry item
    files ← parse_file_entries items
    ok (file ∷ files)

  -- The match of `parse_files` on the keys "length" and "files".
  unfoldable pub files_of : Option Value → Option Value → Result (List FileEntry) Error
  unfolding parse_file_entries
  files_of (some _) (some _) = err both_length_and_files
  files_of (some (int (pos n))) none =
      if ltb 0 n then ok (record { path = []; len = n } ∷ []) else err (wrong_type (ascii "length"))
  files_of (some _) none = err (wrong_type (ascii "length"))
  files_of none (some (list nil)) = err no_files
  files_of none (some (list (cons item items))) = parse_file_entries (cons item items)
  files_of none (some _) = err (wrong_type (ascii "files"))
  files_of none none = err (missing_key (ascii "length"))

  unfoldable pub parse_files : Entries → Result (List FileEntry) Error
  unfolding files_of
  parse_files info = files_of (get (ascii "length") info) (get (ascii "files") info)

  -- The strings among a tier's items; a tier without any is left out.
  unfoldable pub tier_urls : Items → List Bytes
  tier_urls nil = []
  tier_urls (cons (bytes b) urls) =
      let rest = tier_urls urls in if is_utf8 b then b ∷ rest else rest
  tier_urls (cons _ urls) = tier_urls urls

  unfoldable pub parse_tiers : Items → List (List Bytes)
  unfolding tier_urls
  parse_tiers nil = []
  parse_tiers (cons (list urls) tiers) =
      let rest = parse_tiers tiers in
      if is_empty (tier_urls urls) then rest else tier_urls urls ∷ rest
  parse_tiers (cons _ tiers) = parse_tiers tiers

  abbrev pub announce_list : Option Value → List (List Bytes)
  unfolding parse_tiers
  announce_list (some (list tiers)) = parse_tiers tiers
  announce_list _ = []

  abbrev pub single_tracker : Option Value → List (List Bytes)
  single_tracker (some (bytes b)) = if is_utf8 b then (b ∷ []) ∷ [] else []
  single_tracker _ = []

  unfoldable pub parse_trackers : Entries → List (List Bytes)
  parse_trackers top =
      let parsed = announce_list (get (ascii "announce-list") top) in
      if is_empty parsed then single_tracker (get (ascii "announce") top) else parsed

  module _ (sha1 : Bytes → Bytes) where
    unfoldable pub build : Entries → Bytes → List (List Bytes) → Result Metainfo Error
    unfolding req_bytes check_component req_u64 chunks add_lengths parse_files
    build info info_bytes trackers = do
      raw_name ← req_bytes info (ascii "name")
      name ← ok_or (utf8 raw_name) bad_name
      check_component name
      piece_length ← req_u64 info (ascii "piece length")
      guard (not (piece_length == 0 || ltb max_piece_length piece_length)) bad_length
      pieces_raw ← req_bytes info (ascii "pieces")
      guard (not (is_empty pieces_raw || not (length pieces_raw % 20 == 0))) bad_pieces
      let pieces = chunks (length pieces_raw) 20 pieces_raw
      files ← parse_files info
      total_length ← add_lengths 0 files
      guard (not (total_length == 0)) bad_length
      guard (div_ceil total_length piece_length == length pieces) piece_count_mismatch
      ok (record {
        trackers = trackers;
        info_hash = sha1 info_bytes;
        name = name;
        piece_length = piece_length;
        pieces = pieces;
        files = files;
        total_length = total_length;
      })

    unfoldable pub parse : Bytes → Result Metainfo Error
    unfolding build parse_trackers decode encode get
    parse input = do
      value ← map_err bencode (decode input)
      top ← dict_entries not_a_dict value
      info_value ← ok_or (get (ascii "info") top) (missing_key (ascii "info"))
      info ← dict_entries (wrong_type (ascii "info")) info_value
      build info (encode info_value) (parse_trackers top)

    unfoldable pub parse_info_dict : Bytes → List (List Bytes) → Result Metainfo Error
    unfolding build decode
    parse_info_dict info_bytes trackers = do
      value ← map_err bencode (decode info_bytes)
      info ← dict_entries not_a_dict value
      build info info_bytes trackers
