-- ===== src/Middleware/ClientIp.antt =====
-- The client's address behind trusted proxies: `TrustedClientIP` and `resolveClientIP` of
-- internal/middleware/client_ip.go. The addresses of net/netip are a parameter.
use across_backend_api.Prelude.{
  ℕ, ◌+◌, ◌≡◌, refl, sym, ap, subst, ◌∙◌, ◌⊎◌, inl, inr, Bool, true, false, not, ◌||◌, Option, none,
  some, List, [], ◌∷◌, ◌++◌, arith, ltb, ◌==◌, if◌then◌else◌, Bool-cases, Option-cases, length,
  length-append, append_assoc,
}
use across_backend_api.Prelude.Text.{Text, codes, text_eq, is_empty, to_lower, trim_space}

-- What is used of net/netip.
pub record Netip (Addr Prefix : Type 0) : Type 0 where
  pub is_valid : Addr → Bool
  pub has_zone : Addr → Bool
  pub unmap : Addr → Addr
  pub parse_addr : Text → Option Addr
  pub parse_prefix : Text → Option Prefix
  pub bits : Prefix → ℕ
  pub contains : Prefix → Addr → Bool

abbrev cons_head : ℕ → List Text → List Text
cons_head c [] = (c ∷ []) ∷ []
cons_head c (p ∷ ps) = (c ∷ p) ∷ ps

-- `strings.Split(s, ",")`
unfoldable pub split_commas : Text → List Text
split_commas [] = [] ∷ []
split_commas (c ∷ s) =
    let rest = split_commas s in if c == b',' then [] ∷ rest else cons_head c rest

pub split_commas-cons : (s : Text) → (p : Text) × (ps : List Text) × (split_commas s ≡ p ∷ ps)
unfolding split_commas
split_commas-cons [] = ([], [], refl)
split_commas-cons (c ∷ s) =
    let (p, ps, e) = split_commas-cons s in
    elim (Bool-cases (c == b',')) [
      | inl comma ↦ ([], split_commas s, rw comma refl)
      | inr other ↦ (c ∷ p, ps, rw (other, e) refl)
    ]

split_commas-append : (a b : Text) → split_commas (a ++ b',' ∷ b) ≡ split_commas a ++ split_commas b
unfolding split_commas
split_commas-append [] b = refl
split_commas-append (c ∷ a) b =
    let (p, ps, e) = split_commas-cons a in
    rw (split_commas-append a b, e)
      (elim (Bool-cases (c == b',')) [ inl comma ↦ rw comma refl | inr other ↦ rw other refl ])

-- `forwardedForHeader`: the values of the fields named so, in wire order; not valid once they are
-- too long.
unfoldable pub forwarded_for : List (Text × Text) → Text → Text × Bool
unfolding text_eq to_lower
forwarded_for [] chain = (chain, true)
forwarded_for ((key, value) ∷ fields) chain =
    elim (text_eq (to_lower key) (codes "x-forwarded-for")) [
      | false ↦ forwarded_for fields chain
      | true ↦ elim (ltb 4096 (length chain + length value + 1)) [
        | true ↦ (chain, false)
        | false ↦
            forwarded_for fields ((if is_empty chain then [] else chain ++ codes ",") ++ value)
      ]
    ]

module _ {Addr Prefix : Type 0} (net : Netip Addr Prefix) where
  -- The prefixes that an operator lists; one that does not parse, or holds everything, is left out.
  unfoldable pub trusted_prefixes : List Text → List Prefix
  unfolding trim_space
  trusted_prefixes [] = []
  trusted_prefixes (item ∷ items) =
      let rest = trusted_prefixes items in
      elim (net.parse_prefix (trim_space item)) [
        | none ↦ rest
        | some prefix ↦ if ltb 0 (net.bits prefix) then prefix ∷ rest else rest
      ]

  abbrev pub is_trusted : List Prefix → Addr → Bool
  is_trusted [] ip = false
  is_trusted (prefix ∷ trusted) ip = net.contains prefix ip || is_trusted trusted ip

  -- The parsed entries in front of `chain`, the last one first.
  unfoldable pub parse_chain : List Text → List Addr → Option (List Addr)
  unfolding trim_space
  parse_chain [] chain = some chain
  parse_chain (part ∷ parts) chain = elim (net.parse_addr (trim_space part)) [
    | none ↦ none
    | some ip ↦ elim (net.has_zone ip) [
      | true ↦ none
      | false ↦ parse_chain parts (net.unmap ip ∷ chain)
    ]
  ]

  -- From the peer back along the chain, for as long as the address is that of a trusted proxy.
  unfoldable pub hop : List Prefix → Addr → List Addr → Addr
  hop trusted current [] = current
  hop trusted current (ip ∷ chain) =
      let further = hop trusted ip chain in if is_trusted trusted current then further else current

  unfoldable pub resolve_client_ip : Addr → Text → List Prefix → Addr
  unfolding hop split_commas
  resolve_client_ip peer header trusted =
      if not (net.is_valid peer) || not (is_trusted trusted peer) || ltb 4096 (length header)
      then peer
      else if ltb 32 (length (split_commas header))
      then peer
      else elim (parse_chain (split_commas header) []) [
        | none ↦ peer
        | some chain ↦ hop trusted peer chain
      ]

  -- `TrustedClientIP`, on the header fields of a request.
  unfoldable pub trusted_client_ip : Text → Addr → List (Text × Text) → Addr
  unfolding split_commas
  trusted_client_ip raw peer fields =
      let (chain, valid) = forwarded_for fields [] in
      let client = net.unmap peer in
      if valid then resolve_client_ip client chain (trusted_prefixes (split_commas raw)) else client

  abbrev onto : List Addr → Option (List Addr) → Option (List Addr)
  onto m none = none
  onto m (some c) = some (c ++ m)

  onto-onto : (u m : List Addr) (o : Option (List Addr)) → onto m (onto u o) ≡ onto (u ++ m) o
  onto-onto u m none = refl
  onto-onto u m (some c) = ap some (append_assoc c u m)

  parse_chain-acc :
      (parts : List Text) (m : List Addr) → parse_chain parts m ≡ onto m (parse_chain parts [])
  unfolding parse_chain
  parse_chain-acc [] m = refl
  parse_chain-acc (part ∷ parts) m = elim (Option-cases (net.parse_addr (trim_space part))) [
    | inl bad ↦ rw (bad, parse_chain) refl
    | inr (ip, e) ↦ elim (Bool-cases (net.has_zone ip)) [
      | inl zone ↦ rw (e, zone, parse_chain) refl
      | inr plain ↦
          rw (e, plain, parse_chain)
            (parse_chain-acc parts (net.unmap ip ∷ m)
              ∙ sym (onto-onto (net.unmap ip ∷ []) m (parse_chain parts []))
              ∙ ap (onto m) (sym (parse_chain-acc parts (net.unmap ip ∷ []))))
    ]
  ]

  parse_chain-append :
      (xs ys : List Text) (m : List Addr) {r : List Addr}
      → parse_chain (xs ++ ys) m ≡ some r
      → (c : List Addr) × (d : List Addr) × (parse_chain ys [] ≡ some d) × (r ≡ d ++ c)
  unfolding parse_chain
  parse_chain-append [] ys m e = elim (Option-cases (parse_chain ys [])) [
    | inl bad ↦ absurd (ground (arith, parse_chain-acc ys m))
    | inr (d, good) ↦ (m, d, good, ground (arith, parse_chain-acc ys m))
  ]
  parse_chain-append (x ∷ xs) ys m {r} e = elim (Option-cases (net.parse_addr (trim_space x))) [
    | inl bad ↦ absurd (ground arith)
    | inr (ip, found) ↦ elim (Bool-cases (net.has_zone ip)) [
      | inl zone ↦ absurd (ground arith)
      | inr plain ↦ parse_chain-append xs ys (net.unmap ip ∷ m) {r = r} (ground arith)
    ]
  ]

  hop-append :
      (trusted : List Prefix) (ip : Addr) (c m : List Addr)
      → is_trusted trusted (hop trusted ip c) ≡ false
      → hop trusted ip (c ++ m) ≡ hop trusted ip c
  unfolding hop
  hop-append trusted ip [] [] u = refl
  hop-append trusted ip [] (y ∷ m) u = rw u refl
  hop-append trusted ip (x ∷ c) m u = elim (Bool-cases (is_trusted trusted ip)) [
    | inl proxy ↦ rw proxy (
        hop-append trusted x c m
          (subst (λ t. is_trusted trusted (if t then hop trusted x c else ip) ≡ false) proxy u))
    | inr client ↦ rw client refl
  ]

  -- Whatever a client writes in front of the entries of the proxies: when these alone lead to an
  -- address that is not a trusted proxy, the result is that address, or the peer when the longer
  -- header is refused. So a client cannot choose its own address.
  pub resolve_client_ip_forged :
      (peer : Addr) (trusted : List Prefix) (forged real : Text)
      → is_trusted trusted (resolve_client_ip peer real trusted) ≡ false
      → (resolve_client_ip peer (forged ++ b',' ∷ real) trusted
          ≡ resolve_client_ip peer real trusted)
        ⊎ (resolve_client_ip peer (forged ++ b',' ∷ real) trusted ≡ peer)
  unfolding resolve_client_ip
  resolve_client_ip_forged peer trusted forged real u =
      let all : Text = forged ++ b',' ∷ real in
      elim (Bool-cases
        (not (net.is_valid peer) || not (is_trusted trusted peer) || ltb 4096 (length all))) [
          | inl refused ↦ inr (rw refused refl)
          | inr fine ↦ elim (Bool-cases (ltb 32 (length (split_commas all)))) [
            | inl many ↦ inr (rw (fine, many) refl)
            | inr few ↦ elim (Option-cases (parse_chain (split_commas all) [])) [
              | inl bad ↦ inr (rw (fine, few, bad) refl)
              | inr (chain, good) ↦
                  let (c, d, parsed, e) =
                    parse_chain-append (split_commas forged) (split_commas real) [] {r = chain} (
                      ap (λ ps. parse_chain ps []) (sym (split_commas-append forged real))
                      ∙ good) in
                  let fine' : (not (net.is_valid peer)
                        || not (is_trusted trusted peer)
                        || ltb 4096 (length real))
                      ≡ false =
                    ground (arith, length-append forged (b',' ∷ real)) in
                  let few' : ltb 32 (length (split_commas real)) ≡ false = ground (
                    arith,
                    ap length (split_commas-append forged real),
                    length-append (split_commas forged) (split_commas real),
                  ) in
                  let here : resolve_client_ip peer real trusted ≡ hop trusted peer d =
                    rw (fine', few', parsed) refl in
                  inl (
                    rw (fine, few, good)
                      (ap (hop trusted peer) e
                        ∙ hop-append trusted peer d c (ap (is_trusted trusted) (sym here) ∙ u)
                        ∙ sym here))
            ]
          ]
        ]
