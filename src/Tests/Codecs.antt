-- ===== src/Tests/Codecs.antt =====
-- A codec for one page and any metadata.
use bduts.Prelude.{
  ℕ, zero, suc, ◌≡◌, refl, ap, ◌∙◌, sym, String, str_eq, eq_iff, Bool, true, false, [], ◌∷◌, Option,
  none, some, arith, inl, inr, Bool-cases, if◌then◌else◌,
}
use bduts.Prelude.Int.{ℤ, pos, negsuc}
use bduts.Http.{Header}
use bduts.Cache.Disk.{Bytes}
use bduts.Cache.Directives.{PageMetadata}
use bduts.Cache.Store.{Page, Codec}
use bduts.Cache.Insert.Stored.{IsFaithful}

abbrev sign : ℤ → ℕ
sign (pos n) = 0
sign (negsuc n) = 1

abbrev size_part : ℤ → ℕ
size_part (pos n) = n
size_part (negsuc n) = n

abbrev integer : ℕ → ℕ → ℤ
integer zero n = pos n
integer (suc s) n = negsuc n

abbrev bit : Bool → ℕ
bit false = 0
bit true = 1

abbrev flag : ℕ → Bool
flag zero = false
flag (suc n) = true

integer_lem : (z : ℤ) → integer (sign z) (size_part z) ≡ z
integer_lem (pos n) = refl
integer_lem (negsuc n) = refl

flag-bit : (b : Bool) → flag (bit b) ≡ b
flag-bit true = refl
flag-bit false = refl

abbrev encode_meta : PageMetadata → Bytes
encode_meta m =
    let d = m.response_directives in
    sign m.size
    ∷ size_part m.size
    ∷ bit d.must_revalidate
    ∷ bit d.no_cache
    ∷ bit d.no_store
    ∷ bit d.no_transform
    ∷ bit d.private_only
    ∷ bit d.proxy_revalidate
    ∷ sign d.max_age
    ∷ size_part d.max_age
    ∷ sign d.smax_age
    ∷ size_part d.smax_age
    ∷ []

abbrev decode_meta : Bytes → Option PageMetadata
decode_meta (s ∷ n ∷ a ∷ b ∷ c ∷ d ∷ e ∷ f ∷ g ∷ h ∷ i ∷ j ∷ k) = some (record {
  size = integer s n;
  response_directives = record {
    must_revalidate = flag a;
    no_cache = flag b;
    no_store = flag c;
    no_transform = flag d;
    private_only = flag e;
    proxy_revalidate = flag f;
    max_age = integer g h;
    smax_age = integer i j;
  };
})
decode_meta _ = none

abbrev decode_some : Option Bytes → Option PageMetadata
decode_some none = none
decode_some (some bs) = decode_meta bs

abbrev pub greeting : Page
greeting = record { body = "hi"; header = [] }

abbrev encode_text : String → Header → Option Bytes
encode_text body [] = if str_eq body "hi" then some (7 ∷ []) else none
encode_text body (_ ∷ _) = none

abbrev encode_page : Page → Option Bytes
encode_page p = encode_text p.body p.header

abbrev decode_page : Bytes → Option Page
decode_page (suc n ∷ bs) = some greeting
decode_page _ = none

abbrev pub codec : Codec
codec = record {
  marshal_meta = λ m. some (encode_meta m);
  unmarshal_meta = decode_meta;
  marshal_page = encode_page;
  unmarshal_page = decode_page;
}

decode-encode_meta :
    (m : PageMetadata) (bs : Bytes) → codec.marshal_meta m ≡ some bs → decode_meta bs ≡ some m
decode-encode_meta m bs e =
    let d = m.response_directives in
    let same : some (encode_meta m) ≡ some bs = e in
    let back : decode_meta (encode_meta m) ≡ some m =
      rw
        (
          integer_lem m.size,
          flag-bit d.must_revalidate,
          flag-bit d.no_cache,
          flag-bit d.no_store,
          flag-bit d.no_transform,
          flag-bit d.private_only,
          flag-bit d.proxy_revalidate,
          integer_lem d.max_age,
          integer_lem d.smax_age,
        )
        refl in
    ap (decode_some) (sym same) ∙ back

text_cases :
    (body : String) (h : Header) (bs : Bytes)
    → encode_text body h ≡ some bs
    → (body ≡ "hi") × (h ≡ []) × (bs ≡ 7 ∷ [])
text_cases body [] bs e = elim (Bool-cases (str_eq body "hi")) [
  | inl same ↦
      let e' : some (7 ∷ []) ≡ some bs = rw same at e in
      ((eq_iff body "hi").0 same, refl, ground (arith, e'))
  | inr other ↦ let e' : none ≡ some bs = rw other at e in absurd (ground (arith, e'))
]
text_cases body (x ∷ h) bs e = absurd (ground (arith, e))

greeting_lem : (p : Page) → p.body ≡ "hi" → p.header ≡ [] → greeting ≡ p
greeting_lem p b h =
    let parts : greeting ≡ record { body = p.body; header = p.header } = rw (b, h) refl in parts

pub codec-IsFaithful : IsFaithful codec
codec-IsFaithful = record {
  meta = decode-encode_meta;
  page = λ p bs e.
      let (b, h, w) = text_cases p.body p.header bs e in rw w (ap some (greeting_lem p b h));
  no_zero = λ p bs e. let (b, h, w) = text_cases p.body p.header bs e in rw w refl;
}
