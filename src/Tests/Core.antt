-- ===== src/Tests/Core.antt =====
-- Runs of core/ratelimit.py and core/client_ip.py.
use ragz.Prelude.{
  ◌≡◌, refl, ℕ, String, true, false, not, ◌&&◌, ◌||◌, none, some, [], ◌∷◌, ◌++◌, List, Option, ◌==◌,
  is_none, inl, ◌⊎◌, ltb, leb, min, length, arith, is_ok, if◌then◌else◌, any,
}
use ragz.Core.Redis.{Slot, memory}
use ragz.Core.RateWindow.{calls, window_admits}
use ragz.Core.Idempotency.{claim_monotonic}
use ragz.Core.Replay.{claims, accepted, Rises, one_claim_wins, accepted-Rises}
use ragz.Core.ClientIp.{Text, IpAddress, client_ip, hops, trusted_networks, is_trusted}
use ragz.Core.Forwarded.{forged_prefix_ignored}

abbrev empty_store : String → Slot
empty_store _ = none

window_admits_example : (calls memory "login:a" 3 60 (10 ∷ 20 ∷ 20 ∷ 69 ∷ []) empty_store).0 ≡ 3
window_admits_example =
    window_admits memory "login:a" 3 60 10 (20 ∷ 20 ∷ 69 ∷ []) empty_store refl
      (omega arith, (omega arith, (omega arith, tt)))

-- An address is a text of one letter, and a network holds one address.
abbrev one_letter : Text → Option ℕ
one_letter (c ∷ []) = some c
one_letter _ = none

abbrev ip : IpAddress
ip = record {
  Address = ℕ;
  Network = ℕ;
  ip_address = one_letter;
  ip_network = one_letter;
  contains = λ network address. network == address;
}

abbrev proxies : List Text
proxies = (b'p' ∷ []) ∷ (b'x' ∷ b'x' ∷ []) ∷ []

abbrev forged : Text
forged = b'f' ∷ b',' ∷ b' ' ∷ b'p' ∷ []

-- `c, p`
abbrev real : Text
real = b'c' ∷ b',' ∷ b' ' ∷ b'p' ∷ []

real_caller : client_ip ip [] (some (b'p' ∷ [])) proxies real ≡ b'c' ∷ []
unfolding client_ip any ragz.Prelude.select_where
real_caller = refl

direct_peer : client_ip ip [] (some (b'z' ∷ [])) proxies forged ≡ b'z' ∷ []
unfolding client_ip any
direct_peer = refl

forged_prefix_ignored_example :
    client_ip ip [] (some (b'p' ∷ [])) proxies (forged ++ (b',' ∷ real))
    ≡ client_ip ip [] (some (b'p' ∷ [])) proxies real
unfolding is_trusted trusted_networks hops any ragz.Prelude.select_where
forged_prefix_ignored_example = forged_prefix_ignored ip [] (b'p' ∷ []) forged real proxies refl

one_claim_wins_example : (claims memory "slack:1" 900 (10 ∷ 20 ∷ 900 ∷ []) empty_store).0 ≡ 1
one_claim_wins_example =
    one_claim_wins memory "slack:1" 900 10 (20 ∷ 900 ∷ []) empty_store refl
      (omega arith, (omega arith, tt))

-- A mark of 5, which lapses at 1000.
abbrev marked : String → Slot
marked _ = some (5, some 1000)

replayed :
    accepted memory "bot:1" 900 ((20, 6) ∷ (30, 6) ∷ (40, 8) ∷ (50, 7) ∷ []) marked ≡ 6 ∷ 8 ∷ []
unfolding accepted claim_monotonic
replayed = refl

accepted-Rises_example :
    Rises 5 (accepted memory "bot:1" 900 ((20, 6) ∷ (30, 6) ∷ (40, 8) ∷ (50, 7) ∷ []) marked)
accepted-Rises_example =
    accepted-Rises memory "bot:1" 900 20 5 1000 ((20, 6) ∷ (30, 6) ∷ (40, 8) ∷ (50, 7) ∷ []) marked
      refl (omega arith)
      (
        (omega arith, omega arith),
        (
          (omega arith, omega arith),
          ((omega arith, omega arith), ((omega arith, omega arith), tt)),
        ),
      )
