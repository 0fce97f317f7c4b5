-- ===== src/ServerPool/Membership.antt =====
-- backend/serverPool.go: adding, finding and removing a server by its URL.
use bduts.Prelude.{
  ℕ, ◌<◌, ◌≡◌, refl, ap, ◌∙◌, ◌⊎◌, inl, inr, String, str_eq, eq_iff, Bool-cases, Option-cases,
  false, List, [], ◌∷◌, ◌++◌, Option, none, some, arith, All, if◌then◌else◌,
}
use bduts.Http.{url_string}
use bduts.Backend.{Backend}
use bduts.ServerPool.{
  Heap, ServerPool, server_not_found, url_at, add_server, find_server_by_url, without_url,
  remove_server_by_url,
}

-- Every reference of the list was given out before, so no later allocation touches it.
abbrev pub Allocated : Heap → List ℕ → Type 0
Allocated h = All (λ r. r < h.next)

abbrev pub or_else : Option ℕ → Option ℕ → Option ℕ
or_else none o = o
or_else (some v) o = some v

find_server_by_url-append :
    (url : String) (h : Heap) (xs : List ℕ) (r : ℕ)
    → find_server_by_url url h (xs ++ r ∷ [])
      ≡ or_else (find_server_by_url url h xs) (if str_eq (url_at h r) url then some r else none)
unfolding find_server_by_url
find_server_by_url-append url h [] r = refl
find_server_by_url-append url h (x ∷ xs) r = ground (arith, find_server_by_url-append url h xs r)

-- An allocation is invisible to the servers that are there.
find_server_by_url-add :
    (url : String) (b : Backend) (h : Heap) (p : ServerPool) (xs : List ℕ)
    → Allocated h xs
    → find_server_by_url url (add_server b h p).0 xs ≡ find_server_by_url url h xs
unfolding find_server_by_url add_server
find_server_by_url-add url b h p [] a = refl
find_server_by_url-add url b h p (x ∷ xs) a =
    ground (arith, find_server_by_url-add url b h p xs a.1)

-- After AddServer a URL that was found before is found as before; any other is found exactly if it
-- is the new server's, and then the new server is what is found. The references of the old servers
-- must be allocated.
find-add_server :
    (url : String) (b : Backend) (h : Heap) (p : ServerPool)
    → Allocated h p.servers
    → find_server_by_url url (add_server b h p).0 (add_server b h p).1.servers
      ≡ or_else
          (find_server_by_url url h p.servers)
          (if str_eq (url_string b.url) url then some h.next else none)
unfolding add_server
find-add_server url b h p a =
    find_server_by_url-append url (add_server b h p).0 p.servers h.next
    ∙ rw (find_server_by_url-add url b h p p.servers a)
        (ground (arith, eq_iff (url_string b.url) url))

-- Either no server has the URL, and nothing changes but the error; or the first one that has it is
-- cut out of the list, and the others and the pointer stay.
abbrev pub Cut : String → Heap → List ℕ → List ℕ → Type 0
Cut url h xs ys =
    (before : List ℕ) × (v : ℕ) × (after : List ℕ) × (xs ≡ before ++ v ∷ after)
    × (ys ≡ before ++ after)
    × (url_at h v ≡ url)
    × (find_server_by_url url h before ≡ none)

later_Cut :
    {url : String} (h : Heap) {xs ys : List ℕ} (x : ℕ)
    → str_eq (url_at h x) url ≡ false
    → Cut url h xs ys
    → Cut url h (x ∷ xs) (x ∷ ys)
unfolding find_server_by_url
later_Cut h x miss (before, v, after, split, rest, at, clear) =
    (x ∷ before, v, after, ap (◌∷◌ x) split, ap (◌∷◌ x) rest, at, rw miss clear)

without_url_cases :
    (url : String) (h : Heap) (xs : List ℕ)
    → ((find_server_by_url url h xs ≡ none) × (without_url url h xs ≡ none))
      ⊎ ((ys : List ℕ) × (without_url url h xs ≡ some ys) × Cut url h xs ys)
unfolding find_server_by_url without_url
without_url_cases url h [] = inl (refl, refl)
without_url_cases url h (x ∷ xs) = elim (Bool-cases (str_eq (url_at h x) url)) [
  | inl hit ↦ inr (xs, rw hit refl, ([], x, xs, refl, refl, (eq_iff _ _).0 hit, refl))
  | inr miss ↦ elim (without_url_cases url h xs) [
    | inl (absent, same) ↦ inl (rw miss absent, rw (miss, same) refl)
    | inr (ys, e, c) ↦ inr (x ∷ ys, rw (miss, e) refl, later_Cut h x miss c)
  ]
]

-- RemoveServerByUrl either finds no server of the URL, gives its error and changes nothing; or it
-- cuts the first server of the URL out of the list, and changes nothing else.
pub remove_server_by_url_lem :
    (url : String) (h : Heap) (p : ServerPool)
    → ((find_server_by_url url h p.servers ≡ none)
        × (remove_server_by_url url h p ≡ (p, some server_not_found)))
      ⊎ ((ys : List ℕ) × (remove_server_by_url url h p ≡ (record p { servers = ys }, none))
          × Cut url h p.servers ys)
unfolding remove_server_by_url
remove_server_by_url_lem url h p = elim (without_url_cases url h p.servers) [
  | inl (absent, e) ↦ inl (absent, rw (e, remove_server_by_url) refl)
  | inr (ys, e, c) ↦ inr (ys, rw (e, remove_server_by_url) refl, c)
]

-- No two servers of the list have one URL.
abbrev pub UniqueUrls : Heap → List ℕ → Type 0
UniqueUrls h [] = Unit {0}
UniqueUrls h (v ∷ vs) = (find_server_by_url (url_at h v) h vs ≡ none) × UniqueUrls h vs

without_url-find :
    (url : String) (h : Heap) (xs ys : List ℕ)
    → UniqueUrls h xs
    → without_url url h xs ≡ some ys
    → find_server_by_url url h ys ≡ none
unfolding find_server_by_url without_url
without_url-find url h [] ys u e = cc
without_url-find url h (x ∷ xs) ys u e = elim (Bool-cases (str_eq (url_at h x) url)) [
  | inl hit ↦
      let same : xs ≡ ys = ground arith in rw (← same, ← (eq_iff (url_at h x) url).0 hit) u.0
  | inr miss ↦ elim (Option-cases (without_url url h xs)) [
    | inl gone ↦ cc (rw (miss, gone) at e)
    | inr (ws, rest) ↦
        let cut : x ∷ ws ≡ ys = ground arith in
        rw (← cut, miss) (without_url-find url h xs ws u.1 rest)
  ]
]

-- Where no two servers have one URL, RemoveServerByUrl leaves no server of the URL in the pool.
find-remove_server_by_url :
    (url : String) (h : Heap) (p : ServerPool)
    → UniqueUrls h p.servers
    → find_server_by_url url h (remove_server_by_url url h p).0.servers ≡ none
unfolding remove_server_by_url
find-remove_server_by_url url h p u = elim (without_url_cases url h p.servers) [
  | inl (absent, e) ↦ rw (e, remove_server_by_url) absent
  | inr (ys, e, _) ↦ rw (e, remove_server_by_url) (without_url-find url h p.servers ys u e)
]

pub find_server_by_url-same :
    (url : String) (h h' : Heap) (xs : List ℕ)
    → All (λ r. url_at h' r ≡ url_at h r) xs
    → find_server_by_url url h' xs ≡ find_server_by_url url h xs
unfolding find_server_by_url
find_server_by_url-same url h h' [] a = refl
find_server_by_url-same url h h' (x ∷ xs) (a, rest) = rw a (
    ap (λ (o : Option ℕ). if str_eq (url_at h x) url then some x else o)
      (find_server_by_url-same url h h' xs rest))

pub UniqueUrls-same :
    (h h' : Heap) (xs : List ℕ)
    → All (λ r. url_at h' r ≡ url_at h r) xs
    → UniqueUrls h xs
    → UniqueUrls h' xs
UniqueUrls-same h h' [] a u = tt
UniqueUrls-same h h' (x ∷ xs) (a, rest) (clear, u) = (
  rw a (find_server_by_url-same (url_at h x) h h' xs rest ∙ clear),
  UniqueUrls-same h h' xs rest u,
)

pub UniqueUrls-append :
    (h : Heap) (xs : List ℕ) (r : ℕ)
    → find_server_by_url (url_at h r) h xs ≡ none
    → UniqueUrls h xs
    → UniqueUrls h (xs ++ r ∷ [])
unfolding find_server_by_url
UniqueUrls-append h [] r f u = (refl, tt)
UniqueUrls-append h (x ∷ xs) r f (clear, u) =
    let apart : str_eq (url_at h x) (url_at h r) ≡ false = ground arith in
    let rest : find_server_by_url (url_at h r) h xs ≡ none = ground arith in
    (
      find_server_by_url-append (url_at h x) h xs r
          ∙ rw clear
              (ground (arith, eq_iff (url_at h x) (url_at h r), eq_iff (url_at h r) (url_at h x))),
      UniqueUrls-append h xs r rest u,
    )

-- Removing the URL of the last server, which no other one has, leaves the others.
pub without_url-append :
    (url : String) (h : Heap) (xs : List ℕ) (r : ℕ)
    → find_server_by_url url h xs ≡ none
    → url_at h r ≡ url
    → without_url url h (xs ++ r ∷ []) ≡ some xs
unfolding find_server_by_url without_url
without_url-append url h [] r f e = ground (arith, eq_iff (url_at h r) url)
without_url-append url h (x ∷ xs) r f e = ground (arith, without_url-append url h xs r)

pub remove_server_by_url_of_cut :
    (url : String) (h : Heap) (p : ServerPool) (ys : List ℕ)
    → without_url url h p.servers ≡ some ys
    → remove_server_by_url url h p ≡ (record p { servers = ys }, none)
unfolding remove_server_by_url
remove_server_by_url_of_cut url h p ys e = rw (e, remove_server_by_url) refl
