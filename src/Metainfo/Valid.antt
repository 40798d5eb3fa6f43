-- ===== src/Metainfo/Valid.antt =====
-- What holds of every torrent file that metainfo.rs accepts.
use btget.Prelude.{
  ℕ, zero, suc, ◌+◌, ◌*◌, ◌/◌, ◌%◌, ◌^◌, ◌≤◌, ◌<◌, ◌≡◌, refl, sym, ap, ◌∙◌, subst, Bool, true,
  false, not, ◌||◌, List, [], ◌∷◌, Option, none, some, arith, ltb, ltb→lt, ◌==◌, ==_iff, length,
  drop, is_empty, Bytes, ascii, Result, ok, err, ok_or, map_err, All, Ensures, holds, rejected,
  Ensures-if, Ensures-guard, Ensures-bind, Ensures-mono, length-take, length-drop,
}
use btget.Bencode as Bencode
use btget.Bencode.{Value, bytes, int, list, dict, Items, nil, cons, Entries, get, encode, decode}
use btget.Metainfo.{
  FileEntry, Metainfo, Error, max_piece_length, bad_name, bad_length, bad_pieces,
  piece_count_mismatch, missing_key, wrong_type, not_a_dict, bencode, dict_entries, req_bytes,
  req_u64, chunks, add_lengths, div_ceil, utf8, build, parse, parse_info_dict, parse_trackers,
}
use btget.Metainfo.Names.{
  IsComponent, Top, any_result, check_component-IsComponent, parse_files-IsComponent,
}

abbrev pub lengths_sum : List FileEntry → ℕ
lengths_sum [] = 0
lengths_sum (file ∷ files) = file.len + lengths_sum files

pub record IsMetainfo (m : Metainfo) : Type 0 where
  pub name_component : IsComponent m.name
  pub path_components : All (λ file. All IsComponent file.path) m.files
  pub piece_length_bounds : (0 < m.piece_length) × (m.piece_length ≤ max_piece_length)
  pub piece_hashes : All (λ p. length p ≡ 20) m.pieces
  pub piece_count : length m.pieces ≡ div_ceil m.total_length m.piece_length
  pub total : m.total_length ≡ lengths_sum m.files
  pub total_bounds : (0 < m.total_length) × (m.total_length < 2 ^ 64)

length-chunks :
    (fuel q : ℕ) (xs : Bytes) → length xs ≡ 20 * q → All (λ p. length p ≡ 20) (chunks fuel 20 xs)
unfolding chunks
length-chunks zero q xs h = tt
length-chunks (suc fuel) q [] h = tt
length-chunks (suc fuel) zero (x ∷ xs) h = absurd (omega arith)
length-chunks (suc fuel) (suc q) (x ∷ xs) h = (
  omega (arith, length-take 20 (x ∷ xs)),
  length-chunks fuel q (drop 20 (x ∷ xs)) (omega (arith, length-drop 20 (x ∷ xs))),
)

add_lengths-sum :
    (total : ℕ) (files : List FileEntry)
    → total < 2 ^ 64
    → Ensures (λ n. (n ≡ total + lengths_sum files) × (n < 2 ^ 64)) Top (add_lengths total files)
unfolding add_lengths
add_lengths-sum total [] h = holds {a = total} (omega arith, h)
add_lengths-sum total (file ∷ files) h =
    Ensures-if (ltb (total + file.len) (2 ^ 64))
      (λ l.
        Ensures-mono (add_lengths-sum (total + file.len) files (ltb→lt _ _ l))
          (λ n (e, b). (omega arith, b)))
      (λ _. rejected tt)

not_or : (a b : Bool) → not (a || b) ≡ true → (a ≡ false) × (b ≡ false)
not_or false false h = (refl, refl)
not_or false true h = cc
not_or true b h = cc

piece_length_lem :
    (n : ℕ) → not (n == 0 || ltb max_piece_length n) ≡ true → (0 < n) × (n ≤ max_piece_length)
piece_length_lem n h = ground arith

-- The number of bytes in a list of piece hashes.
multiple_of_20 : (n : ℕ) (b : Bool) → not (b || not (n % 20 == 0)) ≡ true → n ≡ 20 * (n / 20)
multiple_of_20 n b h = ground arith

not-==_pos : (n : ℕ) → not (n == 0) ≡ true → 0 < n
not-==_pos n h = ground arith

decoded : (r : Result Value Bencode.Error) → Ensures (λ v. r ≡ ok v) Top (map_err bencode r)
decoded (ok v) = holds refl
decoded (err e) = rejected tt

dict_entries-dict : (e : Error) (v : Value) → Ensures (λ map. v ≡ dict map) Top (dict_entries e v)
dict_entries-dict e (dict map) = holds refl
dict_entries-dict e (bytes b) = rejected tt
dict_entries-dict e (int b) = rejected tt
dict_entries-dict e (list b) = rejected tt

found : (o : Option Value) (e : Error) → Ensures (λ v. o ≡ some v) Top (ok_or o e)
found none e = rejected tt
found (some v) e = holds refl

module _ (is_utf8 : Bytes → Bool) (sha1 : Bytes → Bytes) where
  -- The torrent's identity is the hash of the bytes of its info dictionary.
  abbrev pub IsBuilt : Bytes → List (List Bytes) → Metainfo → Type 0
  IsBuilt info_bytes trackers m =
      IsMetainfo m × (m.info_hash ≡ sha1 info_bytes) × (m.trackers ≡ trackers)

  build-IsBuilt :
      (info : Entries) (info_bytes : Bytes) (trackers : List (List Bytes))
      → Ensures (IsBuilt info_bytes trackers) Top (build is_utf8 sha1 info info_bytes trackers)
  unfolding build
  build-IsBuilt info info_bytes trackers =
      Ensures-bind (any_result (req_bytes info (ascii "name"))) (λ raw_name _.
        Ensures-bind (any_result (ok_or (utf8 is_utf8 raw_name) bad_name)) (λ name _.
          Ensures-bind (check_component-IsComponent name) (λ _ hname.
            Ensures-bind (any_result (req_u64 info (ascii "piece length"))) (λ piece_length _.
              Ensures-guard (not (piece_length == 0 || ltb max_piece_length piece_length))
                bad_length tt
                (λ hlen. Ensures-bind (any_result (req_bytes info (ascii "pieces"))) (λ raw _.
                  Ensures-guard (not (is_empty raw || not (length raw % 20 == 0))) bad_pieces tt
                    (λ hraw. Ensures-bind (parse_files-IsComponent is_utf8 info) (λ files hfiles.
                      Ensures-bind (add_lengths-sum 0 files (omega arith))
                        (λ total (htotal, hbound).
                          Ensures-guard (not (total == 0)) bad_length tt (λ hpos.
                            Ensures-guard
                              (div_ceil total piece_length == length (chunks (length raw) 20 raw))
                              piece_count_mismatch tt
                              (λ hcount. holds (
                                record {
                                  name_component = hname;
                                  path_components = hfiles;
                                  piece_length_bounds = piece_length_lem piece_length hlen;
                                  piece_hashes =
                                      length-chunks (length raw) (length raw / 20) raw
                                        (multiple_of_20 (length raw) (is_empty raw) hraw);
                                  piece_count = sym ((==_iff _ _).0 hcount);
                                  total = omega arith;
                                  total_bounds = (not-==_pos total hpos, hbound);
                                },
                                refl,
                                refl,
                              ))))))))))))

  -- What parsing a torrent file gives.
  abbrev pub IsParsed : Bytes → Metainfo → Type 0
  IsParsed input m =
      (top info : Entries) × (decode input ≡ ok (dict top))
      × (get (ascii "info") top ≡ some (dict info))
      × IsBuilt (encode (dict info)) (parse_trackers is_utf8 top) m

  -- A torrent file that is accepted has the info hash of its info dictionary, as the encoder writes
  -- it, and the trackers of its top dictionary, and it is well formed: names and path components
  -- that stay in their directory, a piece length in bounds, hashes of twenty bytes, as many as the
  -- total length takes, and a total that is the sum of the files' lengths, not zero, below 2 ^ 64.
  pub parse-IsBuilt : (input : Bytes) → Ensures (IsParsed input) Top (parse is_utf8 sha1 input)
  unfolding parse
  parse-IsBuilt input = Ensures-bind (decoded (decode input)) (λ value hv.
      Ensures-bind (dict_entries-dict not_a_dict value) (λ top ht.
        Ensures-bind (found (get (ascii "info") top) (missing_key (ascii "info"))) (λ info_value hi.
          Ensures-bind (dict_entries-dict (wrong_type (ascii "info")) info_value) (λ info hd.
            subst
              (λ v.
                Ensures (IsParsed input) Top
                  (build is_utf8 sha1 info (encode v) (parse_trackers is_utf8 top)))
              (sym hd)
              (Ensures-mono (build-IsBuilt info (encode (dict info)) (parse_trackers is_utf8 top))
                (λ m hm. (top, info, hv ∙ ap ok ht, hi ∙ ap some hd, hm)))))))

  -- An info dictionary that came by itself is accepted under the hash of its very bytes, and is as
  -- well formed.
  pub parse_info_dict-IsBuilt :
      (info_bytes : Bytes) (trackers : List (List Bytes))
      → Ensures (IsBuilt info_bytes trackers) Top (parse_info_dict is_utf8 sha1 info_bytes trackers)
  unfolding parse_info_dict
  parse_info_dict-IsBuilt info_bytes trackers =
      Ensures-bind (decoded (decode info_bytes)) (λ value hv.
        Ensures-bind (dict_entries-dict not_a_dict value)
          (λ info hd. build-IsBuilt info info_bytes trackers))
