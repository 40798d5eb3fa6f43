-- ===== src/Tests/MetainfoRuns.antt =====
-- Runs of the torrent file parser, and its theorems at concrete inputs.
use btget.Prelude.{
  ◌≡◌, refl, Bool, true, [], ◌∷◌, ◌++◌, Bytes, ascii, bytes_eq, bytes_lt, replicate, take, ok, err,
  Ensures,
}
use btget.Prelude.Decimal.{is_digit, leading_zero, parse_decimal}
use btget.Bencode.{get, insert, decode, value, integer, string, peek, take_digits}
use btget.Prelude.{All-replicate, IsByte, some, arith}
use btget.Metainfo.Hex.{to_hex, from_hex, from_hex-to_hex}
use btget.Metainfo.{
  bad_path, check_component, chunks, parse, parse_info_dict, build, req_bytes, req_u64, add_lengths,
  parse_files, files_of,
}
use btget.Metainfo.Names.{Top}
use btget.Metainfo.Valid.{IsBuilt, IsParsed, parse-IsBuilt, parse_info_dict-IsBuilt}

abbrev all_utf8 : Bytes → Bool
all_utf8 b = true

-- In place of a hash: the first twenty bytes.
abbrev prefix : Bytes → Bytes
prefix b = take 20 b

abbrev info : Bytes
info = ascii "d6:lengthi7e4:name1:a12:piece lengthi4e6:pieces40:" ++ (replicate 40 120 ++ ascii "e")

abbrev torrent : Bytes
torrent = ascii "d8:announce1:t4:info" ++ (info ++ ascii "e")

parent_refused : check_component (ascii "..") ≡ err bad_path
unfolding check_component bytes_eq
parent_refused = refl

parse-IsBuilt_example :
    Ensures (IsParsed all_utf8 prefix torrent) Top (parse all_utf8 prefix torrent)
parse-IsBuilt_example = parse-IsBuilt all_utf8 prefix torrent

parse_info_dict-IsBuilt_example :
    Ensures (IsBuilt all_utf8 prefix info []) Top (parse_info_dict all_utf8 prefix info [])
parse_info_dict-IsBuilt_example = parse_info_dict-IsBuilt all_utf8 prefix info []

accepted :
    parse_info_dict all_utf8 prefix info []
    ≡ ok (record {
      trackers = [];
      info_hash = take 20 info;
      name = ascii "a";
      piece_length = 4;
      pieces = replicate 20 120 ∷ replicate 20 120 ∷ [];
      files = record { path = []; len = 7 } ∷ [];
      total_length = 7;
    })
unfolding parse_info_dict build req_bytes req_u64 check_component chunks add_lengths parse_files
    files_of decode value integer string peek take_digits is_digit leading_zero parse_decimal
    bytes_eq bytes_lt get insert
accepted = refl

abbrev hash : Bytes
hash = replicate 20 171

from_hex-to_hex_example : from_hex (to_hex hash) ≡ some hash
from_hex-to_hex_example = from_hex-to_hex hash (All-replicate IsByte 20 171 (omega arith)) refl
