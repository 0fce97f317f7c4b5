-- ===== src/Tests/Rounds.antt =====
-- The theorems on starting up and on the rounds of checks.
use bduts.Prelude.{
  ℕ, suc, ◌<◌, ◌≡◌, String, Bool, false, List, [], ◌∷◌, Option, none, some, length, All, str_eq,
  if◌then◌else◌, ◌⊎◌,
}
use bduts.Prelude.Int.{ℤ, pos}
use bduts.Prelude.Go.{ret, panic}
use bduts.Http.{Url}
use bduts.Backend.{ServerConfig}
use bduts.ServerPool.{Heap}
use bduts.Lb.Starting.{check_round}
use bduts.Lb.Starting.Checks.{IsChecked, check_round-ends}
use bduts.Tests.Data.{three, url_of, server}

abbrev dial : String → ℤ → Bool
dial host timeout = str_eq host "a"

abbrev all_three : List ℕ
all_three = 0 ∷ 1 ∷ 2 ∷ []

check_round-ends_example :
    ((length all_three ≡ 2)
      × (h' : Heap) × (check_round dial all_three 2 three.heap ≡ ret (h', 0))
      × All (IsChecked dial h') all_three)
    ⊎ (((length all_three < 2)
          × (h' : Heap) × (left : ℕ) × (check_round dial all_three 2 three.heap
              ≡ ret (h', suc left)))
        ⊎ ((2 < length all_three) × (check_round dial all_three 2 three.heap ≡ panic)))
check_round-ends_example = check_round-ends dial all_three 2 three.heap

abbrev parse : String → Option Url
parse text = if str_eq text "bad" then none else some (url_of text)

abbrev configured : List ServerConfig
configured =
    record { url = "a"; health_check_tcp_timeout = pos 5; maximal_requests = pos 2 }
    ∷ record { url = "bad"; health_check_tcp_timeout = pos 5; maximal_requests = pos 2 }
    ∷ record { url = "b"; health_check_tcp_timeout = pos 5; maximal_requests = pos 1 }
    ∷ []

abbrev unused : Heap
unused = record { cell = λ r. server "z" false 0 0; next = 0 }
