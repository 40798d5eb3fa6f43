-- ===== src/Storage/Laid.antt =====
-- Bytes laid over the files of storage.rs from a place on, and over the files as one run of bytes.
use btget.Prelude.{
  ℕ, zero, suc, ◌+◌, ◌-◌, ◌≤◌, ◌<◌, ◌≡◌, refl, sym, ap, ◌∙◌, List, [], ◌∷◌, ◌++◌, arith, leb,
  length, take, drop, Bytes, leb→le, leb→lt, Bool-cases, inl, inr, append-nil, append_assoc,
  length-append_bytes, length-drop, length-take, take-append-drop,
}
use btget.Storage.Cover.{joined, sizes, drop-append_past}

pub take_all : (n : ℕ) (xs : Bytes) → length xs ≤ n → take n xs ≡ xs
take_all zero [] h = refl
take_all zero (x ∷ xs) h = absurd (omega arith)
take_all (suc n) [] h = refl
take_all (suc n) (x ∷ xs) h = ap (λ t. x ∷ t) (take_all n xs (omega arith))

pub drop_all : (n : ℕ) (xs : Bytes) → length xs ≤ n → drop n xs ≡ []
drop_all zero [] h = refl
drop_all zero (x ∷ xs) h = absurd (omega arith)
drop_all (suc n) [] h = refl
drop_all (suc n) (x ∷ xs) h = drop_all n xs (omega arith)

-- The bytes laid over a file from a place on, as far as it goes.
abbrev pub laid_file : Bytes → ℕ → Bytes → Bytes
laid_file file c bs = take c file ++ (take (length file - c) bs ++ drop (c + length bs) file)

-- The bytes laid over the files from a place on.
abbrev pub laid : List Bytes → ℕ → Bytes → List Bytes
laid [] c bs = []
laid (file ∷ files) c bs =
    laid_file file c bs ∷ laid files (c - length file) (drop (length file - c) bs)

take-nil : (n : ℕ) → take {A = ℕ} n [] ≡ []
take-nil zero = refl
take-nil (suc n) = refl

drop-nil : (n : ℕ) → drop {A = ℕ} n [] ≡ []
drop-nil zero = refl
drop-nil (suc n) = refl

laid_file-nil : (file : Bytes) (c : ℕ) → laid_file file c [] ≡ file
laid_file-nil file c =
    rw (take-nil (length file - c))
      (ap (λ m. take c file ++ drop m file) (omega arith) ∙ take-append-drop c file)

pub laid-nil : (files : List Bytes) (c : ℕ) → laid files c [] ≡ files
laid-nil [] c = refl
laid-nil (file ∷ files) c =
    rw (laid_file-nil file c, drop-nil (length file - c))
      (ap (λ t. file ∷ t) (laid-nil files (c - length file)))

pub past_zero : (l c : ℕ) → l ≤ c → l - c ≡ 0
past_zero l c h = omega arith

laid_file-past : (file bs : Bytes) (c : ℕ) → length file ≤ c → laid_file file c bs ≡ file
laid_file-past file bs c h =
    rw (take_all c file h, drop_all (c + length bs) file (omega arith))
      (ap (λ m. file ++ (take m bs ++ [])) (past_zero (length file) c h) ∙ append-nil file)

pub laid-past :
    (file : Bytes) (files : List Bytes) (c : ℕ) (bs : Bytes)
    → length file ≤ c
    → laid (file ∷ files) c bs ≡ file ∷ laid files (c - length file) bs
laid-past file files c bs h =
    rw (laid_file-past file bs c h)
      (ap (λ m. file ∷ laid files (c - length file) (drop m bs)) (past_zero (length file) c h))

pub empty_of : (bs : Bytes) → length bs ≡ 0 → bs ≡ []
empty_of [] h = refl
empty_of (x ∷ bs) h = absurd (omega arith)

pub laid_file-length : (file bs : Bytes) (c : ℕ) → length (laid_file file c bs) ≡ length file
laid_file-length file bs c = omega (
  arith,
  length-append_bytes (take c file) (take (length file - c) bs ++ drop (c + length bs) file),
  length-append_bytes (take (length file - c) bs) (drop (c + length bs) file),
  length-take c file,
  length-take (length file - c) bs,
  length-drop (c + length bs) file,
)

pub sizes-laid : (files : List Bytes) (c : ℕ) (bs : Bytes) → sizes (laid files c bs) ≡ sizes files
sizes-laid [] c bs = refl
sizes-laid (file ∷ files) c bs =
    rw (laid_file-length file bs c, sizes-laid files (c - length file) (drop (length file - c) bs))
      refl

take-append_past :
    (c : ℕ) (xs ys : Bytes) → length xs ≤ c → take c (xs ++ ys) ≡ xs ++ take (c - length xs) ys
take-append_past c [] ys h = ap (λ m. take m ys) (omega arith)
take-append_past zero (x ∷ xs) ys h = absurd (omega arith)
take-append_past (suc c) (x ∷ xs) ys h =
    ap (λ t. x ∷ t)
      (take-append_past c xs ys (omega arith) ∙ ap (λ m. xs ++ take m ys) (omega arith))

take-append_inside : (c : ℕ) (xs ys : Bytes) → c ≤ length xs → take c (xs ++ ys) ≡ take c xs
take-append_inside zero xs ys h = refl
take-append_inside (suc c) [] ys h = absurd (omega arith)
take-append_inside (suc c) (x ∷ xs) ys h =
    ap (λ t. x ∷ t) (take-append_inside c xs ys (omega arith))

drop-append_inside : (c : ℕ) (xs ys : Bytes) → c ≤ length xs → drop c (xs ++ ys) ≡ drop c xs ++ ys
drop-append_inside zero xs ys h = refl
drop-append_inside (suc c) [] ys h = absurd (omega arith)
drop-append_inside (suc c) (x ∷ xs) ys h = drop-append_inside c xs ys (omega arith)

-- What is laid over the files, as one run of bytes.
abbrev pub replaced : ℕ → Bytes → Bytes → Bytes
replaced c bs run = take c run ++ (bs ++ drop (c + length bs) run)

joined-past :
    (file run : Bytes) (c : ℕ) (bs : Bytes)
    → length file ≤ c
    → file ++ replaced (c - length file) bs run ≡ replaced c bs (file ++ run)
joined-past file run c bs h =
    rw (take-append_past c file run h, drop-append_past (c + length bs) file run (omega arith))
      (ap (λ m. file ++ (take (c - length file) run ++ (bs ++ drop m run))) (omega arith)
        ∙ sym (
            append_assoc file (take (c - length file) run)
              (bs ++ drop (c + length bs - length file) run)))

joined-inside :
    (file run : Bytes) (c : ℕ) (bs : Bytes)
    → c + length bs ≤ length file
    → laid_file file c bs ++ run ≡ replaced c bs (file ++ run)
joined-inside file run c bs h =
    rw
      (
        take-append_inside c file run (omega arith),
        drop-append_inside (c + length bs) file run h,
        take_all (length file - c) bs (omega arith),
      )
      (append_assoc (take c file) (bs ++ drop (c + length bs) file) run
        ∙ ap (λ t. take c file ++ t) (append_assoc bs (drop (c + length bs) file) run))

glued : (a t d r bs : Bytes) → t ++ d ≡ bs → (a ++ (t ++ [])) ++ (d ++ r) ≡ a ++ (bs ++ r)
glued a t d r bs e =
    append_assoc a (t ++ []) (d ++ r)
    ∙ ap (λ u. a ++ u)
        (ap (λ u. u ++ (d ++ r)) (append-nil t) ∙ sym (append_assoc t d r) ∙ ap (λ u. u ++ r) e)

joined-across :
    (file run : Bytes) (c : ℕ) (bs : Bytes)
    → c < length file
    → length file - c < length bs
    → laid_file file c bs ++ replaced (c - length file) (drop (length file - c) bs) run
      ≡ replaced c bs (file ++ run)
joined-across file run c bs h l =
    let rest = drop (length file - c) bs in
    rw
      (
        past_zero c (length file) (omega arith),
        drop_all (c + length bs) file (omega arith),
        take-append_inside c file run (omega arith),
        drop-append_past (c + length bs) file run (omega arith),
      )
      (glued (take c file) (take (length file - c) bs) rest (drop (0 + length rest) run) bs
          (take-append-drop (length file - c) bs)
        ∙ ap (λ m. take c file ++ (bs ++ drop m run))
            (omega (arith, length-drop (length file - c) bs)))

pub joined-laid :
    (files : List Bytes) (c : ℕ) (bs : Bytes)
    → c + length bs ≤ length (joined files)
    → joined (laid files c bs) ≡ replaced c bs (joined files)
joined-laid [] c bs h = rw (empty_of bs (omega arith), take-nil c, drop-nil (c + 0)) refl
joined-laid (file ∷ files) c bs h = elim (Bool-cases (leb (length file) c)) [
  | inl p ↦
      let past = leb→le (length file) c p in
      ap joined (laid-past file files c bs past)
      ∙ ap (λ t. file ++ t)
          (joined-laid files (c - length file) bs
            (omega (arith, length-append_bytes file (joined files))))
      ∙ joined-past file (joined files) c bs past
  | inr q ↦
      let inside = leb→lt (length file) c q in
      elim (Bool-cases (leb (length bs) (length file - c))) [
        | inl w ↦
            let fits = leb→le (length bs) (length file - c) w in
            rw (drop_all (length file - c) bs fits, laid-nil files (c - length file))
              (joined-inside file (joined files) c bs (omega (arith, fits, inside)))
        | inr w ↦
            rw
              (joined-laid files (c - length file) (drop (length file - c) bs) (
                omega (
                  arith,
                  inside,
                  length-append_bytes file (joined files),
                  length-drop (length file - c) bs,
                )))
              (joined-across file (joined files) c bs inside
                (leb→lt (length bs) (length file - c) w))
      ]
]

drop-take_front : (c : ℕ) (xs ys : Bytes) → c ≤ length xs → drop c (take c xs ++ ys) ≡ ys
drop-take_front zero xs ys h = refl
drop-take_front (suc c) [] ys h = absurd (omega arith)
drop-take_front (suc c) (x ∷ xs) ys h = drop-take_front c xs ys (omega arith)

pub take-drop-replaced :
    (c : ℕ) (bs run : Bytes) → c ≤ length run → take (length bs) (drop c (replaced c bs run)) ≡ bs
take-drop-replaced c bs run h =
    ap (λ t. take (length bs) t) (drop-take_front c run (bs ++ drop (c + length bs) run) h)
    ∙ take-append_inside (length bs) bs (drop (c + length bs) run) (omega arith)
    ∙ take_all (length bs) bs (omega arith)
