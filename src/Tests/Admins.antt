-- ===== src/Tests/Admins.antt =====
-- The theorems on the admin's handlers at concrete forms.
use bduts.Prelude.{
  ℕ, ◌≡◌, ◌⊎◌, refl, true, false, [], ◌∷◌, none, some, arith, str_eq, if◌then◌else◌,
}
use bduts.Prelude.Int.{pos}
use bduts.Prelude.Go.{ret}
use bduts.Http.{Url, ResponseWriter, fresh_writer, url_string, write}
use bduts.Backend.{maximal_requests}
use bduts.ServerPool.{find_server_by_url}
use bduts.ServerPool.Membership.{UniqueUrls}
use bduts.ServerPool.Steps.{State}
use bduts.Lb.Admin.{
  AddForm, RemoveForm, Decoded, complain, Env, enroll, add_server_post, remove_server_delete,
}
use bduts.Lb.Admin.Adding.{
  Refusal, answer, Acceptance, described, add_server_post_cases, add_server_post-no_places,
  add_server_post-bad_json,
}
use bduts.Lb.Admin.Removing.{remove-add_server_post}
use bduts.Tests.Data.{three, url_of}

abbrev pub env : Env
env = record {
  parse = λ text. if str_eq text "http://d" then some (url_of "d") else none;
  dial = λ host timeout. true;
  serve_file = λ name w. (write name w).0;
  marshal = λ infos. some "[]";
}

abbrev form : ℕ → AddForm
form limit = record {
  url = "http://d";
  health_check_tcp_timeout = pos 1000;
  maximal_requests = pos limit;
}

abbrev posted : Decoded AddForm
posted = record { form = form 5; failed = false }

abbrev posted_badly : Decoded AddForm
posted_badly = record { form = form 5; failed = true }

abbrev posted_huge : Decoded AddForm
posted_huge = record { form = form 2147483648; failed = false }

no_d : find_server_by_url "http://d" three.heap three.pool.servers ≡ none
unfolding find_server_by_url url_string
no_d = refl

posted-Acceptance : Acceptance env posted three fresh_writer (url_of "d")
posted-Acceptance = record {
  fresh = no_d;
  timeout = omega arith;
  limit = omega arith;
  parsed = refl;
}

posted_badly-Acceptance : Acceptance env posted_badly three fresh_writer (url_of "d")
posted_badly-Acceptance = record {
  fresh = no_d;
  timeout = omega arith;
  limit = omega arith;
  parsed = refl;
}

add_server_post_cases_example :
    ((r : Refusal env posted three fresh_writer) × (add_server_post env posted three fresh_writer
        ≡ ret (three, answer env posted three fresh_writer r)))
    ⊎ ((u : Url) × Acceptance env posted three fresh_writer u
        × (add_server_post env posted three fresh_writer
            ≡ ret (enroll env (described u posted.form) three (complain posted fresh_writer))))
add_server_post_cases_example = add_server_post_cases env posted three fresh_writer

add_server_post-no_places_example :
    (t : State) × (w' : ResponseWriter) × (add_server_post env posted_huge three fresh_writer
      ≡ ret (t, w'))
    × (t.pool.servers ≡ 0 ∷ 1 ∷ 2 ∷ 3 ∷ [])
    × (maximal_requests (t.heap.cell 3) ≡ 0)
add_server_post-no_places_example =
    add_server_post-no_places env posted_huge three fresh_writer (url_of "d") 0 no_d (omega arith)
      refl refl

add_server_post-bad_json_example :
    (t : State) × (w' : ResponseWriter) × (add_server_post env posted_badly three fresh_writer
      ≡ ret (t, w'))
    × (w'.status ≡ some 400)
    × (t.pool.servers ≡ 0 ∷ 1 ∷ 2 ∷ 3 ∷ [])
add_server_post-bad_json_example =
    add_server_post-bad_json env posted_badly three fresh_writer (url_of "d") refl refl
      posted_badly-Acceptance

three-UniqueUrls : UniqueUrls three.heap three.pool.servers
unfolding find_server_by_url url_string
three-UniqueUrls = (refl, (refl, (refl, tt)))

d_is_plain : url_string (url_of "d") ≡ "http://d"
unfolding url_string
d_is_plain = refl

abbrev removal : Decoded RemoveForm
removal = record { form = record { url = "http://d" }; failed = false }

remove-add_server_post_example :
    (t : State) × (w₁ : ResponseWriter) × (add_server_post env posted three fresh_writer
      ≡ ret (t, w₁))
    × (t.pool.servers ≡ 0 ∷ 1 ∷ 2 ∷ three.heap.next ∷ [])
    × ((remove_server_delete env removal t fresh_writer).0.pool.servers ≡ 0 ∷ 1 ∷ 2 ∷ [])
remove-add_server_post_example =
    remove-add_server_post env posted three fresh_writer (url_of "d") (omega arith)
      posted-Acceptance d_is_plain removal fresh_writer refl
