-- ===== src/Cache/Directives.antt =====
-- cache/cache.go and cache/insert.go: the directives of Cache-Control headers, as the cache reads
-- them, and expiry. A time is its number of nanoseconds since January 1 of the year 1, in UTC.
use Prim.Native.String.{String as Text}
pub mod Reading
use bduts.Prelude.{ℕ, zero, String, str_eq, Bool, true, false, List, [], ◌∷◌, map, if◌then◌else◌}
use bduts.Prelude.Int.{ℤ, pos, negsuc, int64, ◌+ℤ◌, ◌*ℤ◌, ltb_ℤ}
use bduts.Http.{Header}
use bduts.Text.{split, trim_space, contains, after_cut, atoi}

-- time.Time{}
abbrev pub null_time : ℤ
null_time = pos 0

-- time.Unix(0, 0).AddDate(7999, 12, 31): February 1 of the year 9970
abbrev pub infinity_time : ℤ
infinity_time = pos 314593891200000000000

abbrev pub second : ℤ
second = pos 1000000000

pub record RequestDirectives : Type 0 where
  pub max_age : ℤ
  pub max_stale : ℤ
  pub min_fresh : ℤ
  pub no_cache : Bool
  pub no_store : Bool
  pub no_transform : Bool
  pub only_if_cached : Bool

pub record ResponseDirectives : Type 0 where
  pub must_revalidate : Bool
  pub no_cache : Bool
  pub no_store : Bool
  pub no_transform : Bool
  pub private_only : Bool
  pub proxy_revalidate : Bool
  pub max_age : ℤ
  pub smax_age : ℤ

pub record PageMetadata : Type 0 where
  pub size : ℤ
  pub response_directives : ResponseDirectives

-- http.Header.Get, on keys in canonical form: the first value, or ""
unfoldable pub header_get : String → Header → String
header_get key [] = ""
header_get key ((k, []) ∷ h) = if str_eq k key then "" else header_get key h
header_get key ((k, value ∷ values) ∷ h) = if str_eq k key then value else header_get key h

-- strings.Split(header.Get("cache-control"), ";"), each part trimmed
unfoldable pub cache_control : Header → List String
unfolding header_get
cache_control h = map trim_space (split b';' (header_get "Cache-Control" h))

-- time.Now().Add(time.Duration(age) * time.Second); the product wraps around.
abbrev pub from_now : ℤ → ℤ → ℤ
from_now now age = now +ℤ int64 (age *ℤ second)

abbrev pub is_zero : ℤ → Bool
is_zero (pos zero) = true
is_zero _ = false

abbrev pub age_of : Text → ℤ
age_of v = atoi (after_cut v)

-- One turn of the loop of loadRequestDirectives
unfoldable pub read_request_directive : ℤ → RequestDirectives → String → RequestDirectives
read_request_directive now d v =
    if str_eq v "only-if-cached"
    then record d { only_if_cached = true }
    else if str_eq v "no-cache"
    then record d { no_cache = true }
    else if str_eq v "no-store"
    then record d { no_store = true }
    else if str_eq v "no-transform"
    then record d { no_transform = true }
    else if contains v "max-age"
    then record d {
      max_age = if is_zero (age_of v) then infinity_time else from_now now (age_of v);
    }
    else if contains v "max-stale"
    then record d { max_stale = age_of v }
    else if contains v "min-fresh"
    then record d { min_fresh = from_now now (age_of v) }
    else d

-- One turn of the loop of loadResponseDirectives
unfoldable pub read_response_directive : ℤ → ResponseDirectives → String → ResponseDirectives
read_response_directive now d v =
    if str_eq v "must-revalidate"
    then record d { must_revalidate = true }
    else if str_eq v "no-cache"
    then record d { no_cache = true }
    else if str_eq v "no-store"
    then record d { no_store = true }
    else if str_eq v "no-transform"
    then record d { no_transform = true }
    else if str_eq v "private"
    then record d { private_only = true }
    else if str_eq v "proxy-revalidate"
    then record d { proxy_revalidate = true }
    else if contains v "max-age"
    then record d {
      max_age = if is_zero (age_of v) then infinity_time else from_now now (age_of v);
    }
    else if contains v "s-maxage"
    then record d { smax_age = if is_zero (age_of v) then null_time else from_now now (age_of v) }
    else d

-- The loop over the parts, from the left
abbrev pub read_all {ℓ} : {A : Type ℓ} → (A → String → A) → A → List String → A
read_all read d [] = d
read_all read d (v ∷ vs) = read_all read (read d v) vs

abbrev pub no_request_directives : RequestDirectives
no_request_directives = record {
  max_age = null_time;
  max_stale = pos 0;
  min_fresh = null_time;
  no_cache = false;
  no_store = false;
  no_transform = false;
  only_if_cached = false;
}

abbrev pub no_response_directives : ResponseDirectives
no_response_directives = record {
  must_revalidate = false;
  no_cache = false;
  no_store = false;
  no_transform = false;
  private_only = false;
  proxy_revalidate = false;
  max_age = infinity_time;
  smax_age = null_time;
}

-- `now` is what time.Now returns while the directives are read.
unfoldable pub load_request_directives : ℤ → Header → RequestDirectives
unfolding cache_control read_request_directive
load_request_directives now h =
    read_all (read_request_directive now) no_request_directives (cache_control h)

unfoldable pub load_response_directives : ℤ → Header → ResponseDirectives
unfolding cache_control read_response_directive
load_response_directives now h =
    read_all (read_response_directive now) no_response_directives (cache_control h)

-- createCacheInfo
unfoldable pub create_cache_info : ℤ → Header → ℤ → PageMetadata
unfolding load_response_directives
create_cache_info now h size = record {
  size = size;
  response_directives = load_response_directives now h;
}

unfoldable pub is_expired : ℤ → PageMetadata → ℤ → Bool
is_expired now info after_death = ltb_ℤ (info.response_directives.max_age +ℤ after_death) now
