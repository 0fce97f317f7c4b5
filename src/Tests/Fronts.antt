-- ===== src/Tests/Fronts.antt =====
-- The theorems on the way of a request through cache and balancer, at concrete requests.
use bduts.Prelude.{◌≡◌, refl, String, true, [], ◌∷◌, some, arith}
use bduts.Prelude.Int.{int64, ◌+ℤ◌}
use bduts.Prelude.Go.{ret}
use bduts.Text.{split, trim_left, trim_right}
use bduts.Http.{Request, fresh_writer}
use bduts.Cache.Disk.{Bytes}
use bduts.Cache.Directives.{load_request_directives, load_response_directives}
use bduts.Cache.Store.{CachingProperties}
use bduts.Cache.Insert.Stored.{Storable}
use bduts.Lb.Front.{
  is_http_version_supported, answered, from_cache, request_hash_key, load_balancer_handler,
  save_to_cache,
}
use bduts.Lb.Front.Serving.{
  delivered, load_balancer_handler-Cached, load_balancer_handler-save_to_cache,
}
use bduts.Tests.Data.{page_request}
use bduts.Tests.Store.{Buckets, bolt, bolt-IsTransactional, bolt-HasBuckets}
use bduts.Tests.Codecs.{codec, codec-IsFaithful, greeting}
use bduts.Tests.Caches.{
  key, noon, empty_cache, empty_disk-HasRoom, stored_reply, stored_fresh, key_named, page_cache,
  page_meta, page-Cached, page_fresh,
}

abbrev hash : String → Bytes
hash text = key

-- The page was stored for a GET, and this is a POST.
abbrev post_request : Request
post_request = record page_request { method = "POST" }

request_key : request_hash_key hash post_request ≡ key
unfolding request_hash_key
request_key = refl

supported : is_http_version_supported post_request ≡ true
unfolding is_http_version_supported
supported = refl

load_balancer_handler-Cached_example :
    (after : Buckets) × (load_balancer_handler bolt codec hash noon noon post_request fresh_writer
        (some page_cache)
      ≡ ret (
        some (record page_cache { db = after }),
        answered from_cache (delivered greeting fresh_writer),
      ))
unfolding request_hash_key
load_balancer_handler-Cached_example =
    load_balancer_handler-Cached bolt codec bolt-IsTransactional bolt-HasBuckets hash noon noon
      post_request fresh_writer page_meta 4294967295 greeting page_cache supported page-Cached
      (omega arith) page_fresh refl

greeting-reply-Storable :
    Storable noon page_request stored_reply
      (record { body = "hi"; header = stored_reply.header })
      empty_cache
unfolding load_request_directives load_response_directives int64 ◌+ℤ◌ split trim_left trim_right
greeting-reply-Storable = record {
  fits = refl;
  asked = refl;
  told = refl;
  got = refl;
  shared = refl;
}

load_balancer_handler-save_to_cache_example :
    (c' : CachingProperties Buckets) × (load_balancer_handler bolt codec hash noon noon post_request
        fresh_writer
        (some (
          save_to_cache bolt codec noon
            (request_hash_key hash post_request)
            page_request
            stored_reply
            "hi"
            empty_cache))
      ≡ ret (
        some c',
        answered from_cache
            (delivered (record { body = "hi"; header = stored_reply.header }) fresh_writer),
      ))
unfolding request_hash_key
load_balancer_handler-save_to_cache_example =
    load_balancer_handler-save_to_cache bolt codec bolt-IsTransactional bolt-HasBuckets hash noon
      noon noon page_request post_request stored_reply "hi" fresh_writer empty_cache _ (7 ∷ []) refl
      codec-IsFaithful key_named refl greeting-reply-Storable empty_disk-HasRoom refl refl supported
      stored_fresh refl

abbrev choosy_request : Request
choosy_request = record page_request { header = ("Cache-Control", "only-if-cached" ∷ []) ∷ [] }

choosy : (load_request_directives noon choosy_request.header).only_if_cached ≡ true
unfolding load_request_directives split trim_left trim_right
choosy = refl
