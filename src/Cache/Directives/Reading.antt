-- ===== src/Cache/Directives/Reading.antt =====
-- What the directives of a response's Cache-Control header come to: which texts forbid to store.
use Prim.Native.String.{String as Text}
use bduts.Prelude.{
  ◌≡◌, refl, ◌∙◌, String, str_eq, eq_iff, Bool, true, false, ◌||◌, List, [], ◌∷◌, arith,
}
use bduts.Prelude.Int.{ℤ}
use bduts.Http.{Header}
use bduts.Text.{trim_space}
use bduts.Text.Parts.{has_char, split_whole}
use bduts.Cache.Directives.{
  RequestDirectives, ResponseDirectives, header_get, cache_control, read_request_directive,
  read_response_directive, read_all, load_request_directives, load_response_directives,
  no_request_directives, no_response_directives,
}

-- Whether a text is among the parts
abbrev pub listed : String → List String → Bool
listed name [] = false
listed name (v ∷ vs) = str_eq v name || listed name vs

-- A text that equals one of two different texts does not equal the other.
str_eq_other : (v a b : String) → str_eq a b ≡ false → str_eq v a ≡ true → str_eq v b ≡ false
str_eq_other v a b differ e = rw ((eq_iff v a).0 e) differ

read_response_directive-no_store :
    (now : ℤ) (d : ResponseDirectives) (v : String)
    → (read_response_directive now d v).no_store ≡ (d.no_store || str_eq v "no-store")
unfolding read_response_directive
read_response_directive-no_store now d v =
    let a = str_eq_other v "must-revalidate" "no-store" refl in
    let b = str_eq_other v "no-cache" "no-store" refl in ground arith

read_response_directive-private_only :
    (now : ℤ) (d : ResponseDirectives) (v : String)
    → (read_response_directive now d v).private_only ≡ (d.private_only || str_eq v "private")
unfolding read_response_directive
read_response_directive-private_only now d v =
    let a = str_eq_other v "must-revalidate" "private" refl in
    let b = str_eq_other v "no-cache" "private" refl in
    let c = str_eq_other v "no-store" "private" refl in
    let e = str_eq_other v "no-transform" "private" refl in ground arith

read_request_directive-no_store :
    (now : ℤ) (d : RequestDirectives) (v : String)
    → (read_request_directive now d v).no_store ≡ (d.no_store || str_eq v "no-store")
unfolding read_request_directive
read_request_directive-no_store now d v =
    let a = str_eq_other v "only-if-cached" "no-store" refl in
    let b = str_eq_other v "no-cache" "no-store" refl in ground arith

-- A flag that each turn of the loop turns on at one text is on in the end if it was on or the text
-- was met.
read_all_flag :
    {A : Type 0} (read : A → String → A) (flag : A → Bool) (name : String)
    → ((d : A) (v : String) → flag (read d v) ≡ (flag d || str_eq v name))
    → (vs : List String) (d : A) → flag (read_all read d vs) ≡ (flag d || listed name vs)
read_all_flag read flag name step [] d = ground arith
read_all_flag read flag name step (v ∷ vs) d =
    let ih = read_all_flag read flag name step vs (read d v) in
    let now = step d v in rw (ih, now) (ground arith)

-- The flags that decide whether a page may be stored are set exactly when their directive is one
-- of the trimmed parts of the Cache-Control header between semicolons: no-store and private of a
-- response, no-store of a request.
pub load_directives-listed :
    (now : ℤ) (h : Header)
    → ((load_response_directives now h).no_store ≡ listed "no-store" (cache_control h))
      × ((load_response_directives now h).private_only ≡ listed "private" (cache_control h))
      × ((load_request_directives now h).no_store ≡ listed "no-store" (cache_control h))
unfolding load_response_directives load_request_directives
load_directives-listed now h = (
  read_all_flag (read_response_directive now) (λ d. d.no_store) "no-store"
      (read_response_directive-no_store now) (cache_control h) no_response_directives,
  read_all_flag (read_response_directive now) (λ d. d.private_only) "private"
      (read_response_directive-private_only now) (cache_control h) no_response_directives,
  read_all_flag (read_request_directive now) (λ d. d.no_store) "no-store"
      (read_request_directive-no_store now) (cache_control h) no_request_directives,
)

-- A Cache-Control header without a semicolon that is not no-store alone does not set NoStore, so
-- also one in which no-store stands between commas.
load_response_directives-commas :
    (now : ℤ) (t : Text) (h : Header)
    → has_char b';' t ≡ false
    → str_eq (trim_space t) "no-store" ≡ false
    → (load_response_directives now (("Cache-Control", t ∷ []) ∷ h)).no_store ≡ false
unfolding cache_control header_get
load_response_directives-commas now t h whole other =
    (load_directives-listed now (("Cache-Control", t ∷ []) ∷ h)).0
    ∙ rw (split_whole b';' t whole, other) refl
