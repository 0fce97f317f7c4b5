-- ===== src/Lb/Admin/Removing.antt =====
-- lb/adminHandlers.go: adding a server and removing it again, and that URLs stay unique.
use bduts.Prelude.{ℕ, ◌≡◌, refl, ◌∙◌, List, [], ◌∷◌, ◌++◌, arith, All}
use bduts.Prelude.Go.{ret}
use bduts.Http.{Url, url_string, ResponseWriter}
use bduts.Backend.{health_check}
use bduts.ServerPool.{url_at, add_server, remove_server_by_url}
use bduts.ServerPool.Membership.{
  Allocated, UniqueUrls, UniqueUrls-same, UniqueUrls-append, find_server_by_url-same,
  without_url-append, remove_server_by_url_of_cut,
}
use bduts.ServerPool.Steps.{State}
use bduts.Lb.Admin.{
  AddForm, RemoveForm, Decoded, complain, Env, enroll, add_server_post, remove_server_delete,
}
use bduts.Lb.Admin.Adding.{described, Acceptance, accepted}

enroll-old_urls :
    (env : Env) (u : Url) (form : AddForm) (s : State) (w : ResponseWriter) (xs : List ℕ)
    → Allocated s.heap xs
    → All (λ r. url_at (enroll env (described u form) s w).0.heap r ≡ url_at s.heap r) xs
unfolding enroll add_server
enroll-old_urls env u form s w [] a = tt
enroll-old_urls env u form s w (x ∷ xs) (k, rest) =
    (ground arith, enroll-old_urls env u form s w xs rest)

enroll-new_url :
    (env : Env) (u : Url) (form : AddForm) (s : State) (w : ResponseWriter)
    → url_at (enroll env (described u form) s w).0.heap s.heap.next ≡ url_string u
unfolding enroll add_server health_check
enroll-new_url env u form s w = ground arith

enroll-servers :
    (env : Env) (u : Url) (form : AddForm) (s : State) (w : ResponseWriter)
    → (enroll env (described u form) s w).0.pool.servers ≡ s.pool.servers ++ s.heap.next ∷ []
unfolding enroll add_server
enroll-servers env u form s w = refl

remove_server_delete-pool :
    (env : Env) (d : Decoded RemoveForm) (s : State) (w : ResponseWriter)
    → (remove_server_delete env d s w).0.pool ≡ (remove_server_by_url d.form.url s.heap s.pool).0
unfolding remove_server_delete
remove_server_delete-pool env d s w = ground arith

module _ (env : Env) (d : Decoded AddForm) (s : State) (w : ResponseWriter) (u : Url)
    (allocated : Allocated s.heap s.pool.servers) (a : Acceptance env d s w u)
    (plain : url_string u ≡ d.form.url) where
  abbrev after : State
  after = (enroll env (described u d.form) s (complain d w)).0

  -- If the URL of a form that passes the tests is written as net/url prints it, the POST keeps the
  -- URLs of the pool distinct. The references of the pool must be allocated.
  add_server_post-UniqueUrls :
      UniqueUrls s.heap s.pool.servers
      → (t : State) × (w' : ResponseWriter) × (add_server_post env d s w ≡ ret (t, w'))
        × UniqueUrls t.heap t.pool.servers
  add_server_post-UniqueUrls unique =
      let old = enroll-old_urls env u d.form s (complain d w) s.pool.servers allocated in
      let clear =
        find_server_by_url-same d.form.url s.heap after.heap s.pool.servers old ∙ a.fresh in
      let new_url = enroll-new_url env u d.form s (complain d w) ∙ plain in
      (
        _,
        _,
        accepted env d s w u a,
        rw (enroll-servers env u d.form s (complain d w)) (
            UniqueUrls-append after.heap s.pool.servers s.heap.next (rw new_url clear)
              (UniqueUrls-same s.heap after.heap s.pool.servers old unique)),
      )

  removed_again :
      (d' : Decoded RemoveForm) (w' : ResponseWriter)
      → d'.form.url ≡ d.form.url
      → (remove_server_delete env d' after w').0.pool.servers ≡ s.pool.servers
  unfolding enroll add_server
  removed_again d' w' e =
      let old = enroll-old_urls env u d.form s (complain d w) s.pool.servers allocated in
      let clear =
        find_server_by_url-same d.form.url s.heap after.heap s.pool.servers old ∙ a.fresh in
      let new_url = enroll-new_url env u d.form s (complain d w) ∙ plain in
      let cut = without_url-append d.form.url after.heap s.pool.servers s.heap.next clear new_url in
      rw
        (
          remove_server_delete-pool env d' after w',
          e,
          remove_server_by_url_of_cut d.form.url after.heap after.pool s.pool.servers cut,
        )
        refl

  -- If the form of an AddServerHandler POST passes its tests and its URL is written as net/url
  -- prints it, the POST appends one server to the list, and a DELETE of that URL after it restores
  -- the list. The references of the pool must be allocated.
  pub remove-add_server_post :
      (d' : Decoded RemoveForm) (w' : ResponseWriter)
      → d'.form.url ≡ d.form.url
      → (t : State) × (w₁ : ResponseWriter) × (add_server_post env d s w ≡ ret (t, w₁))
        × (t.pool.servers ≡ s.pool.servers ++ s.heap.next ∷ [])
        × ((remove_server_delete env d' t w').0.pool.servers ≡ s.pool.servers)
  remove-add_server_post d' w' e = (
    _,
    _,
    accepted env d s w u a,
    enroll-servers env u d.form s (complain d w),
    removed_again d' w' e,
  )
