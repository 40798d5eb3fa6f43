-- ===== src/Metainfo/Names.antt =====
-- The names and paths that metainfo.rs accepts stay in their directory.
use btget.Prelude.{
  ◌≡◌, refl, Bool, true, false, not, ◌||◌, [], Option, none, some, ltb, is_empty, contains, Bytes,
  ascii, bytes_eq, Result, ok, err, ok_or, All, Ensures, holds, rejected, Ensures-if, Ensures-guard,
  Ensures-bind,
}
use btget.Bencode.{Value, bytes, int, list, dict, Items, nil, cons, Entries, get}
use btget.Prelude.Int.{pos, negsuc}
use btget.Metainfo.{
  Error, bad_path, missing_key, wrong_type, check_component, dict_entries, req_u64, component_text,
  parse_path, path_items, items_empty, parse_file_entry, parse_file_entries, files_of, parse_files,
}

-- A name that stays in its directory: not empty, not `.` or `..`, and without `/`, `\` and NUL.
pub record IsComponent (c : Bytes) : Type 0 where
  pub non_empty : is_empty c ≡ false
  pub not_dot : bytes_eq c (ascii ".") ≡ false
  pub not_dots : bytes_eq c (ascii "..") ≡ false
  pub no_slash : contains b'/' c ≡ false
  pub no_backslash : contains b'\\' c ≡ false
  pub no_nul : contains 0 c ≡ false

abbrev pub Top : Error → Type 0
Top _ = Unit

or_false : (a b : Bool) → (a || b) ≡ false → (a ≡ false) × (b ≡ false)
or_false false b h = (refl, h)
or_false true b h = cc

pub check_component-IsComponent : (c : Bytes) → Ensures (λ _. IsComponent c) Top (check_component c)
unfolding check_component
check_component-IsComponent c =
    Ensures-if _ (λ _. rejected tt)
      (λ h. holds {a = tt} (
        let h0 = or_false _ _ h in
        let h1 = or_false _ _ h0.1 in
        let h2 = or_false _ _ h1.1 in
        let h3 = or_false _ _ h2.1 in
        let h4 = or_false _ _ h3.1 in
        record {
          non_empty = h0.0;
          not_dot = h1.0;
          not_dots = h2.0;
          no_slash = h3.0;
          no_backslash = h4.0;
          no_nul = h4.1;
        }))

-- A result of which nothing but the success is used.
pub any_result : {A : Type 0} (r : Result A Error) → Ensures (λ _. Unit {0}) Top r
any_result (ok a) = holds tt
any_result (err e) = rejected tt

module _ (is_utf8 : Bytes → Bool) where
  parse_path-IsComponent :
      (items : Items) → Ensures (All IsComponent) Top (parse_path is_utf8 items)
  unfolding parse_path
  parse_path-IsComponent nil = holds {a = []} tt
  parse_path-IsComponent (cons item items) =
      Ensures-bind (any_result (component_text is_utf8 item)) (λ c _.
        Ensures-bind (check_component-IsComponent c)
          (λ _ hc. Ensures-bind (parse_path-IsComponent items) (λ path hp. holds (hc, hp))))

  parse_file_entry-IsComponent :
      (value : Value)
      → Ensures (λ file. All IsComponent file.path) Top (parse_file_entry is_utf8 value)
  unfolding parse_file_entry
  parse_file_entry-IsComponent value =
      Ensures-bind (any_result (dict_entries (wrong_type (ascii "files entry")) value)) (λ map _.
        Ensures-bind (any_result (req_u64 map (ascii "length"))) (λ len _.
          Ensures-bind (any_result (ok_or (get (ascii "path") map) (missing_key (ascii "path"))))
            (λ v _. Ensures-bind (any_result (path_items is_utf8 v)) (λ items _.
              Ensures-guard (not (items_empty is_utf8 items)) bad_path tt
                (λ _. Ensures-bind (parse_path-IsComponent items) (λ path hp. holds hp))))))

  parse_file_entries-IsComponent :
      (items : Items)
      → Ensures (All (λ file. All IsComponent file.path)) Top (parse_file_entries is_utf8 items)
  unfolding parse_file_entries
  parse_file_entries-IsComponent nil = holds {a = []} tt
  parse_file_entries-IsComponent (cons item items) =
      Ensures-bind (parse_file_entry-IsComponent item) (λ file hf.
        Ensures-bind (parse_file_entries-IsComponent items) (λ files hs. holds (hf, hs)))

  files_of-IsComponent :
      (a b : Option Value)
      → Ensures (All (λ file. All IsComponent file.path)) Top (files_of is_utf8 a b)
  unfolding files_of
  files_of-IsComponent (some _) (some _) = rejected tt
  files_of-IsComponent (some (int (pos n))) none =
      Ensures-if (ltb 0 n) (λ _. holds (tt, tt)) (λ _. rejected tt)
  files_of-IsComponent (some (int (negsuc n))) none = rejected tt
  files_of-IsComponent (some (bytes b)) none = rejected tt
  files_of-IsComponent (some (list b)) none = rejected tt
  files_of-IsComponent (some (dict b)) none = rejected tt
  files_of-IsComponent none (some (list nil)) = rejected tt
  files_of-IsComponent none (some (list (cons item items))) =
      parse_file_entries-IsComponent (cons item items)
  files_of-IsComponent none (some (bytes b)) = rejected tt
  files_of-IsComponent none (some (int b)) = rejected tt
  files_of-IsComponent none (some (dict b)) = rejected tt
  files_of-IsComponent none none = rejected tt

  pub parse_files-IsComponent :
      (info : Entries)
      → Ensures (All (λ file. All IsComponent file.path)) Top (parse_files is_utf8 info)
  unfolding parse_files
  parse_files-IsComponent info =
      files_of-IsComponent (get (ascii "length") info) (get (ascii "files") info)
