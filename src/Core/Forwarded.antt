-- ===== src/Core/Forwarded.antt =====
-- What a caller's header has a say in: core/client_ip.py, `client_ip`.
use mathlib.Core.List.{reverse, reverse-append, map-append}
use ragz.Prelude.{
  ℕ, ◌≡◌, refl, ◌≢◌, ◌⊎◌, inl, Bool, true, not, ◌&&◌, ◌||◌, some, List, [], ◌∷◌, ◌++◌, map, arith,
  is_none, if◌then◌else◌, any, select_where, ◌∙◌, ap, sym,
}
use ragz.Core.ClientIp.{
  Text, IpAddress, strip, put_first, split_comma, is_nil, hops, parse_ip, trusted_networks,
  is_trusted, walk, client_ip,
}

put_first-append :
    (c : ℕ) (xs ys : List Text) → xs ≢ [] → put_first c (xs ++ ys) ≡ put_first c xs ++ ys
unfolding put_first
put_first-append c [] ys h = absurd (h refl)
put_first-append c (x ∷ xs) ys h = refl

put_first-ne-nil : (c : ℕ) (xs : List Text) → put_first c xs ≢ []
unfolding put_first
put_first-ne-nil c [] = ground arith
put_first-ne-nil c (x ∷ xs) = ground arith

split_comma-ne-nil : (s : Text) → split_comma s ≢ []
unfolding split_comma
split_comma-ne-nil [] = ground arith
split_comma-ne-nil (c ∷ s) = ground (arith, put_first-ne-nil c (split_comma s))

-- A comma parts the pieces before it from those after it.
split_comma-append : (s t : Text) → split_comma (s ++ (b',' ∷ t)) ≡ split_comma s ++ split_comma t
unfolding split_comma
split_comma-append [] t = refl
split_comma-append (c ∷ s) t = ground (
  arith,
  split_comma-append s t,
  put_first-append c (split_comma s) (split_comma t) (split_comma-ne-nil s),
)

select_where-append {ℓ} :
    {A : Type ℓ} (p : A → Bool) (xs ys : List A)
    → select_where p (xs ++ ys) ≡ select_where p xs ++ select_where p ys
unfolding select_where
select_where-append p [] ys = refl
select_where-append p (x ∷ xs) ys = ground (arith, select_where-append p xs ys)

hops-append : (s t : Text) → hops (s ++ (b',' ∷ t)) ≡ hops s ++ hops t
unfolding hops
hops-append s t =
    ap (λ pieces. select_where (λ h. not (is_nil h)) (map strip pieces)) (split_comma-append s t)
    ∙ ap (select_where (λ h. not (is_nil h))) (map-append strip (split_comma s) (split_comma t))
    ∙ select_where-append (λ h. not (is_nil h)) (map strip (split_comma s))
        (map strip (split_comma t))

module _ (ip : IpAddress) where
  open ip use {Network}

  -- A hop that the walk stops at: an address that is no trusted proxy's.
  abbrev pub is_caller : List Network → Text → Bool
  is_caller networks hop = not (is_none (parse_ip ip hop)) && not (is_trusted ip hop networks)

  walk-append :
      (networks : List Network) (peer : Text) (hs ks : List Text)
      → any (is_caller networks) hs ≡ true
      → walk ip networks peer (hs ++ ks) ≡ walk ip networks peer hs
  unfolding any walk
  walk-append networks peer [] ks found = ground arith
  walk-append networks peer (h ∷ hs) ks found = ground (arith, walk-append networks peer hs ks)

  walk-reverse :
      (networks : List Network) (peer : Text) (hs : List Text)
      → (if is_nil hs then peer else walk ip networks peer (reverse hs))
        ≡ walk ip networks peer (reverse hs)
  unfolding is_nil walk
  walk-reverse networks peer [] = refl
  walk-reverse networks peer (h ∷ hs) = refl

  walk-is_caller :
      (networks : List Network) (peer : Text) (hs : List Text)
      → (walk ip networks peer hs ≡ peer) ⊎ (is_caller networks (walk ip networks peer hs) ≡ true)
  unfolding walk
  walk-is_caller networks peer [] = inl refl
  walk-is_caller networks peer (h ∷ hs) = ground (arith, walk-is_caller networks peer hs)

  abbrev not_proxied : List Text → Text → Bool
  not_proxied trusted_proxies peer =
      is_nil (trusted_networks ip trusted_proxies)
      || not (is_trusted ip peer (trusted_networks ip trusted_proxies))

  client_ip-walk :
      (unknown peer header : Text) (trusted_proxies : List Text)
      → client_ip ip unknown (some peer) trusted_proxies header ≡ (
          if is_nil trusted_proxies || not_proxied trusted_proxies peer
          then peer
          else walk ip (trusted_networks ip trusted_proxies) peer (reverse (hops header)))
  unfolding client_ip
  client_ip-walk unknown peer header trusted_proxies =
      ground (arith, walk-reverse (trusted_networks ip trusted_proxies) peer (hops header))

  walk-forged :
      (networks : List Network) (peer forged real : Text)
      → any (is_caller networks) (reverse (hops real)) ≡ true
      → walk ip networks peer (reverse (hops (forged ++ (b',' ∷ real))))
        ≡ walk ip networks peer (reverse (hops real))
  walk-forged networks peer forged real h =
      ap (walk ip networks peer)
        (ap reverse (hops-append forged real) ∙ reverse-append (hops forged) (hops real))
      ∙ walk-append networks peer (reverse (hops real)) (reverse (hops forged)) h

  -- What stands before a comma in the header changes nothing where one of the hops after that
  -- comma is an address that is no trusted proxy's.
  pub forged_prefix_ignored :
      (unknown peer forged real : Text) (trusted_proxies : List Text)
      → any (is_caller (trusted_networks ip trusted_proxies)) (reverse (hops real)) ≡ true
      → client_ip ip unknown (some peer) trusted_proxies (forged ++ (b',' ∷ real))
        ≡ client_ip ip unknown (some peer) trusted_proxies real
  forged_prefix_ignored unknown peer forged real trusted_proxies h =
      client_ip-walk unknown peer (forged ++ (b',' ∷ real)) trusted_proxies
      ∙ ap
          (λ address.
            if is_nil trusted_proxies || not_proxied trusted_proxies peer then peer else address)
          (walk-forged (trusted_networks ip trusted_proxies) peer forged real h)
      ∙ sym (client_ip-walk unknown peer real trusted_proxies)

  -- The address is the peer's, or parses as an address that is no trusted proxy's.
  pub client_ip-is_caller :
      (unknown peer header : Text) (trusted_proxies : List Text)
      → (client_ip ip unknown (some peer) trusted_proxies header ≡ peer)
        ⊎ (is_caller
              (trusted_networks ip trusted_proxies)
              (client_ip ip unknown (some peer) trusted_proxies header)
            ≡ true)
  unfolding client_ip
  client_ip-is_caller unknown peer header trusted_proxies =
      ground
        (arith, walk-is_caller (trusted_networks ip trusted_proxies) peer (reverse (hops header)))
