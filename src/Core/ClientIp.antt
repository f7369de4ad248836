-- ===== src/Core/ClientIp.antt =====
-- core/client_ip.py: the address that a request is limited and logged by. A text is the list of its
-- code points; the standard library's `ipaddress` is a parameter.
use mathlib.Core.List.{reverse}
use ragz.Prelude.{
  ℕ, Bool, true, false, not, ◌&&◌, ◌||◌, Option, none, some, List, [], ◌∷◌, map, leb, ◌==◌, is_none,
  if◌then◌else◌, any, select_where,
}

abbrev pub Text : Type 0
Text = List ℕ

-- `ip_address` and `ip_network(…, strict=False)`, with nothing for a ValueError, and `addr in network`.
pub record IpAddress : Type 1 where
  pub Address : Type 0
  pub Network : Type 0
  pub ip_address : Text → Option Address
  pub ip_network : Text → Option Network
  pub contains : Network → Address → Bool

-- What `str.strip` takes away, among the code points that a header can hold.
unfoldable pub is_space : ℕ → Bool
is_space c = (leb 9 c && leb c 13) || ((leb 28 c && leb c 32) || (c == 133 || c == 160))

unfoldable pub strip_left : Text → Text
unfolding is_space
strip_left [] = []
strip_left (c ∷ s) = let rest = strip_left s in if is_space c then rest else c ∷ s

unfoldable pub strip : Text → Text
unfolding strip_left
strip s = reverse (strip_left (reverse (strip_left s)))

-- A code point before the first piece.
unfoldable pub put_first : ℕ → List Text → List Text
put_first c [] = (c ∷ []) ∷ []
put_first c (piece ∷ pieces) = (c ∷ piece) ∷ pieces

-- `s.split(",")`
unfoldable pub split_comma : Text → List Text
unfolding put_first
split_comma [] = [] ∷ []
split_comma (c ∷ s) =
    let pieces = split_comma s in if c == b',' then [] ∷ pieces else put_first c pieces

unfoldable pub is_nil {ℓ} : {A : Type ℓ} → List A → Bool
is_nil [] = true
is_nil (_ ∷ _) = false

-- `[h.strip() for h in xff.split(",") if h.strip()]`
unfoldable pub hops : Text → List Text
unfolding strip split_comma is_nil
hops xff = select_where (λ h. not (is_nil h)) (map strip (split_comma xff))

module _ (ip : IpAddress) where
  open ip use {Address, Network, ip_address, ip_network, contains}

  unfoldable pub parse_ip : Text → Option Address
  unfolding strip
  parse_ip value = ip_address (strip value)

  -- A malformed entry is dropped.
  unfoldable pub trusted_networks : List Text → List Network
  unfolding strip is_nil
  trusted_networks [] = []
  trusted_networks (raw ∷ rest) =
      let others = trusted_networks rest in
      if is_nil (strip raw)
      then others
      else elim (ip_network (strip raw)) [ none ↦ others | some network ↦ network ∷ others ]

  unfoldable pub is_trusted : Text → List Network → Bool
  unfolding parse_ip
  is_trusted text networks = elim (parse_ip text) [
    | none ↦ false
    | some address ↦ any (λ network. contains network address) networks
  ]

  -- The loop over the hops, the nearest first; no hop gives the peer.
  unfoldable pub walk : List Network → Text → List Text → Text
  unfolding parse_ip
  walk networks peer [] = peer
  walk networks peer (hop ∷ rest) =
      let further = walk networks peer rest in
      if is_none (parse_ip hop)
      then further
      else if not (is_trusted hop networks)
      then hop
      else further

  -- `unknown` is the text that stands for a request with no client, `header` the value of
  -- `x-forwarded-for`, which is empty where the header is missing.
  unfoldable pub client_ip :
      (unknown : Text) → Option Text → (trusted_proxies : List Text) → (header : Text) → Text
  unfolding is_nil is_trusted trusted_networks hops walk
  client_ip unknown client trusted_proxies header =
      let peer : Text = elim client [ none ↦ unknown | some host ↦ host ] in
      if is_nil trusted_proxies
      then peer
      else let networks : List Network = trusted_networks trusted_proxies in
        if is_nil networks || not (is_trusted peer networks)
        then peer
        else if is_nil (hops header)
        then peer
        else walk networks peer (reverse (hops header))
