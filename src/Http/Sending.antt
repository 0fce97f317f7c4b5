-- ===== src/Http/Sending.antt =====
-- net/http: what a status and headers that are set leave of a response.
use bduts.Prelude.{ℕ, ◌≡◌, refl, inl, inr, none, some, Option-cases}
use bduts.Http.{ResponseWriter, write_header}

module _ (code : ℕ) (w : ResponseWriter) where
  pub write_header-body : (write_header code w).body ≡ w.body
  unfolding write_header
  write_header-body = elim (Option-cases w.status) [
    | inl fresh ↦ rw (write_header, fresh) refl
    | inr (sent, e) ↦ rw (write_header, e) refl
  ]

  -- The first status is the one that is sent, with the headers of that moment.
  pub write_header-status : w.status ≡ none → (write_header code w).status ≡ some code
  unfolding write_header
  write_header-status unsent = rw (write_header, unsent) refl

  pub write_header-sent : w.status ≡ none → (write_header code w).sent_header ≡ w.header
  unfolding write_header
  write_header-sent unsent = rw (write_header, unsent) refl
