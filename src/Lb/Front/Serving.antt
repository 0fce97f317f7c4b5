-- ===== src/Lb/Front/Serving.antt =====
-- lb/lbHandlers.go, loadBalancerHandler: which requests are answered without a backend.
use Prim.Native.String.{len}
use bduts.Prelude.{
  append_nil, append_assoc, ℕ, ◌<◌, ◌^◌, ◌≡◌, ◌≢◌, refl, ap, ◌∙◌, inl, inr, String, Bool, true,
  false, List, [], ◌∷◌, ◌++◌, Option, none, some, arith, Bool-cases, sym, subst, leb, ltb, ◌&&◌,
}
use bduts.Prelude.Int.{ℤ, pos}
use bduts.Prelude.Go.{Go, ret, panic, ◌>>=◌}
use bduts.Http.{
  Request, Response, ResponseWriter, Header, write, write_header, add_headers, add_values,
  header_add,
}
use bduts.Cache.Disk.{Bytes}
use bduts.Cache.Directives.{
  PageMetadata, load_request_directives, load_response_directives, create_cache_info,
}
use bduts.Cache.Bolt.{Bolt, IsTransactional, HasBuckets}
use bduts.Cache.Store.{Page, Result, Codec, CachingProperties}
use bduts.Cache.Insert.Stored.{Cached, Storable, IsFaithful, insert_page_in_cache-Cached}
use bduts.Cache.Insert.Written.{HasRoom}
use bduts.Cache.Read.{get_page_from_cache, is_not_fresh}
use bduts.Cache.Read.Found.{get_page_from_cache-Cached}
use bduts.Lb.Handler.{Handler}
use bduts.Lb.Front.{
  is_http_version_supported, Started, answered, forwarded, from_cache, request_hash_key, write_page,
  transfer, get_page_handler, after_page, load_balancer_handler, save_to_cache,
}

abbrev pairs : String → List String → List (String × String)
pairs key [] = []
pairs key (value ∷ values) = (key, value) ∷ pairs key values

abbrev flat : Header → List (String × String)
flat [] = []
flat ((key, values) ∷ h) = pairs key values ++ flat h

-- A client that was sent a page: all of its headers are added, and the status is 200 unless another was
-- sent before, with the headers of then.
abbrev pub delivered : Page → ResponseWriter → ResponseWriter
delivered page client =
    let header = client.header ++ flat page.header in
    record client {
      header = header;
      status = elim client.status [ none ↦ some 200 | some code ↦ some code ];
      sent_header = elim client.status [ none ↦ header | some code ↦ client.sent_header ];
      body = client.body ++ page.body ∷ [];
    }

with_header : ResponseWriter → List (String × String) → ResponseWriter
with_header client header = record client { header = header }

add_values_lem :
    (key : String) (values : List String) (client : ResponseWriter)
    → add_values key values client ≡ with_header client (client.header ++ pairs key values)
unfolding header_add with_header
add_values_lem key [] client = ap (with_header client) (sym (append_nil client.header))
add_values_lem key (v ∷ values) client =
    add_values_lem key values (header_add key v client)
    ∙ ap (with_header client) (append_assoc client.header ((key, v) ∷ []) (pairs key values))

add_headers_lem :
    (h : Header) (client : ResponseWriter)
    → add_headers h client ≡ with_header client (client.header ++ flat h)
unfolding with_header
add_headers_lem [] client = ap (with_header client) (sym (append_nil client.header))
add_headers_lem ((key, values) ∷ h) client =
    ap (add_headers h) (add_values_lem key values client)
    ∙ add_headers_lem h (with_header client (client.header ++ pairs key values))
    ∙ ap (with_header client) (append_assoc client.header (pairs key values) (flat h))

write_sound :
    (client : ResponseWriter) (text : String) (status : Option ℕ)
    → client.broken ≡ false
    → client.status ≡ status
    → write text client ≡ (
      record client {
        status = elim status [ none ↦ some 200 | some code ↦ some code ];
        sent_header = elim status [ none ↦ client.header | some code ↦ client.sent_header ];
        body = client.body ++ text ∷ [];
      },
      true,
    )
unfolding write write_header
write_sound client text none sound e = rw (write, write_header, e, sound) refl
write_sound client text (some code) sound e =
    rw (write, write_header, e, sound)
      (ap
        (λ st.
          (record client { status = st; body = client.body ++ text ∷ []; broken = false }, true))
        e)

write_page_lem :
    (client : ResponseWriter) (page : Page)
    → client.broken ≡ false
    → write_page client page ≡ (delivered page client, true)
unfolding write_page with_header
write_page_lem client page sound =
    ap (write page.body) (add_headers_lem page.header client)
    ∙ write_sound (with_header client (client.header ++ flat page.header)) page.body client.status
        sound refl

abbrev Answers {ℓ} : {A : Type ℓ} → Go (A × Started) → Type 0
Answers panic = Unit
Answers (ret (_, answered _ _)) = Unit
Answers (ret (_, forwarded _)) = ⊥

module _ {Db : Type 0} (bolt : Bolt Db) (codec : Codec) where
  open bolt use {bucket}

  after_page-Answers :
      (req : Request) (cache : Option (CachingProperties Db)) (page : ResponseWriter × Bool)
      → Answers (ret (cache, after_page bolt codec true req page))
  unfolding after_page
  after_page-Answers req cache (w, true) = tt
  after_page-Answers req cache (w, false) = tt

  transfer-Answers :
      (req : Request) (client : ResponseWriter) (found : Go (CachingProperties Db × Result Page))
      → Answers (
          (found >>= (λ f. ret (transfer bolt codec client f)))
          >>= (λ r. ret (r.0, after_page bolt codec true req r.1)))
  transfer-Answers req client panic = tt
  transfer-Answers req client (ret f) =
      after_page-Answers req (transfer bolt codec client f).0 (transfer bolt codec client f).1

  -- While the cache is set, a request with only-if-cached is never handed to a backend.
  load_balancer_handler-answers :
      (hash : String → Bytes) (loaded now : ℤ) (req : Request) (client : ResponseWriter)
      (c : CachingProperties Db) (c' : Option (CachingProperties Db)) (hd : Handler)
      → (load_request_directives loaded req.header).only_if_cached ≡ true
      → load_balancer_handler bolt codec hash loaded now req client (some c)
        ≢ ret (c', forwarded hd)
  unfolding load_balancer_handler get_page_handler
  load_balancer_handler-answers hash loaded now req client c c' hd only e =
      elim (Bool-cases (is_http_version_supported req)) [
        | inl version ↦
            let key = request_hash_key hash req in
            let found = get_page_from_cache bolt codec loaded now key req c in
            let e' = rw (load_balancer_handler, version, only) at e in
            subst Answers e' (transfer-Answers req client found)
        | inr other ↦ subst Answers (rw (load_balancer_handler, other) at e) tt
      ]

  module _ (law : IsTransactional bolt) (has : HasBuckets bolt) where
    -- loadBalancerHandler answers an HTTP/1.1 request whose page is in the cache and fresh with
    -- that page, whatever the method of the request is, and does not ask a backend: the page's
    -- headers are added to those of the writer, its body is written, and the status is 200 unless
    -- one was sent before. Bolt must commit and keep its buckets as documented, and the client's
    -- connection must stand.
    pub load_balancer_handler-Cached :
        (hash : String → Bytes) (loaded now : ℤ) (req : Request) (client : ResponseWriter)
        (meta : PageMetadata) (n : ℕ) (page : Page) (c : CachingProperties Db)
        → is_http_version_supported req ≡ true
        → Cached bolt codec (request_hash_key hash req) meta n page c.db c.disk
        → n < 2 ^ 32
        → is_not_fresh now (load_request_directives loaded req.header) meta.response_directives
          ≡ false
        → client.broken ≡ false
        → (after : Db) × (load_balancer_handler bolt codec hash loaded now req client (some c)
            ≡ ret (some (record c { db = after }), answered from_cache (delivered page client)))
    unfolding load_balancer_handler get_page_handler transfer after_page
    load_balancer_handler-Cached hash loaded now req client meta n page c version k small fresh
          sound =
        let (after, got, _) =
          get_page_from_cache-Cached bolt codec law has loaded now (request_hash_key hash req) req
            meta n page c k small fresh in
        let wrote = write_page_lem client page sound in
        (after, rw (load_balancer_handler, version, get_page_handler, got, wrote) refl)

    -- A response with a status from 200 to 399 that SaveToCache stores (its page Storable, its key
    -- new, the disk with room) is what loadBalancerHandler answers, without a backend, to every
    -- later HTTP/1.1 request of the same hash for which it is fresh, of whatever method: its body
    -- and all of its headers after those that the writer has; the status is 200, whatever it was,
    -- unless one was sent before. Bolt must commit and keep its buckets as documented, the
    -- encodings must be read back, and the client's connection must stand.
    pub load_balancer_handler-save_to_cache :
        (hash : String → Bytes) (stored loaded now : ℤ) (req asking : Request) (resp : Response)
        (bytes : String) (client : ResponseWriter) (c : CachingProperties Db)
        (meta_bytes page_bytes : Bytes)
        → (leb 200 resp.status_code && ltb resp.status_code 400) ≡ true
        → IsFaithful codec
        → request_hash_key hash asking ≢ []
        → bucket (request_hash_key hash asking) c.db ≡ none
        → Storable stored req resp (record { body = bytes; header = resp.header }) c
        → HasRoom (request_hash_key hash asking) c.disk
        → codec.marshal_meta (create_cache_info stored resp.header (pos (len bytes)))
          ≡ some meta_bytes
        → codec.marshal_page (record { body = bytes; header = resp.header }) ≡ some page_bytes
        → is_http_version_supported asking ≡ true
        → is_not_fresh now
            (load_request_directives loaded asking.header)
            (load_response_directives stored resp.header)
          ≡ false
        → client.broken ≡ false
        → (c' : CachingProperties Db) × (load_balancer_handler bolt codec hash loaded now asking
              client
              (some
                (save_to_cache bolt codec stored (request_hash_key hash asking) req resp bytes c))
            ≡ ret (
              some c',
              answered from_cache
                  (delivered (record { body = bytes; header = resp.header }) client),
            ))
    unfolding save_to_cache create_cache_info
    load_balancer_handler-save_to_cache hash stored loaded now req asking resp bytes client c
          meta_bytes page_bytes good codes named missing s room encoded encoded_page version fresh
          sound =
        let page : Page = record { body = bytes; header = resp.header } in
        let key = request_hash_key hash asking in
        let (c₁, run, k) =
          insert_page_in_cache-Cached bolt codec law has stored key req resp page c meta_bytes
            page_bytes codes named missing s room encoded encoded_page in
        let (after, served) =
          load_balancer_handler-Cached hash loaded now asking client
            (create_cache_info stored resp.header (pos (len bytes))) 0 page c₁ version k
            (omega arith) fresh sound in
        (record c₁ { db = after }, rw (save_to_cache, good, run) served)
