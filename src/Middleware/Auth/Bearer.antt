-- ===== src/Middleware/Auth/Bearer.antt =====
-- Which header admits a request.
use Prim.Native.String
use Prim.Native.Char.{Char}
use text.Mathlib.TextLemmas.{
  append-nil as chars_nil, append_assoc as chars_assoc, nil-append as chars_nil_left,
  cons-append as chars_cons,
}
use api_gateway.Common.{
  ℤ, String, str_eq, eq_iff, List, [], ◌∷◌, ok, Bool-cases, Result-cases, ◌≡◌, refl, sym, ap, ◌∙◌,
  inl, inr, arith,
}
use api_gateway.Http.{Request}
use api_gateway.Repository.Users.{Users}
use api_gateway.Service.Auth.{AuthService, Crypto, Claims, validate_token}
use api_gateway.Middleware.Auth.{
  authorized, require_auth, split_spaces, prepend, with_parts, with_claims,
}

-- The words with a blank between any two.
join : List String → String
join [] = ""
join (w ∷ []) = w
join (w ∷ v ∷ ws) = String.◌++◌ w (String.◌++◌ " " (join (v ∷ ws)))

join-prepend : (c : String) (ws : List String) → join (prepend c ws) ≡ String.◌++◌ c (join ws)
unfolding join prepend
join-prepend c [] = sym (chars_nil c)
join-prepend c (w ∷ []) = refl
join-prepend c (w ∷ v ∷ ws) = chars_assoc c w (String.◌++◌ " " (join (v ∷ ws)))

prepend-cons :
    (c : String) (ws : List String) → (v : String) × (vs : List String) × (prepend c ws ≡ v ∷ vs)
unfolding prepend
prepend-cons c [] = (_, _, refl)
prepend-cons c (w ∷ ws) = (_, _, refl)

split_spaces-cons : (s : String) → (w : String) × (ws : List String) × (split_spaces s ≡ w ∷ ws)
unfolding split_spaces
split_spaces-cons String.[] = (_, _, refl)
split_spaces-cons (String.◌∷◌ c s) = elim (Bool-cases (str_eq (String.◌∷◌ c "") " ")) [
  | inl e ↦ rw (e) (_, _, refl)
  | inr e ↦ rw (e) (prepend-cons (String.◌∷◌ c "") (split_spaces s))
]

single : (c : Char) (s : String) → String.◌++◌ (String.◌∷◌ c "") s ≡ String.◌∷◌ c s
single c s = chars_cons c "" s ∙ ap (String.◌∷◌ c) (chars_nil_left s)

join_blank :
    (ws : List String) (v : String) (vs : List String)
    → ws ≡ v ∷ vs
    → join ("" ∷ ws) ≡ String.◌++◌ " " (join ws)
unfolding join
join_blank ws v vs e = rw (e) (chars_nil_left (String.◌++◌ " " (join (v ∷ vs))))

join-split_spaces : (s : String) → join (split_spaces s) ≡ s
unfolding split_spaces join
join-split_spaces String.[] = refl
join-split_spaces (String.◌∷◌ c s) = elim (Bool-cases (str_eq (String.◌∷◌ c "") " ")) [
  | inl e ↦
      let (w, ws, f) = split_spaces-cons s in
      rw (e) (
        join_blank (split_spaces s) w ws f
        ∙ ap (String.◌++◌ " ") (join-split_spaces s)
        ∙ ap (λ b. String.◌++◌ b s) (sym ((eq_iff (String.◌∷◌ c "") " ").0 e))
        ∙ single c s)
  | inr e ↦ rw (e) (
      join-prepend (String.◌∷◌ c "") (split_spaces s)
      ∙ ap (String.◌++◌ (String.◌∷◌ c "")) (join-split_spaces s)
      ∙ single c s)
]

module _ (users : Users) (crypto : Crypto) where
  with_parts-authorized :
      (s : AuthService) (now : ℤ) (parts : List String) (header : String) (claims : Claims)
      → join parts ≡ header
      → with_parts users crypto s now parts ≡ authorized claims
      → (token : String) × (header ≡ String.◌++◌ "Bearer " token)
        × (validate_token users crypto s now token ≡ ok claims)
  unfolding with_parts with_claims join
  with_parts-authorized s now [] header claims h e = absurd (cc)
  with_parts-authorized s now (a ∷ []) header claims h e = absurd (cc)
  with_parts-authorized s now (a ∷ b ∷ c ∷ ds) header claims h e = absurd (cc)
  with_parts-authorized s now (scheme ∷ token ∷ []) header claims h e =
      elim (Bool-cases (str_eq scheme "Bearer")) [
        | inr other ↦ absurd (ground (arith, other, e))
        | inl same ↦ elim (Result-cases (validate_token users crypto s now token)) [
          | inl (f, bad) ↦ absurd (ground (arith, same, bad, e))
          | inr (found, good) ↦ (
            token,
            sym h
                ∙ ap (λ w. String.◌++◌ w (String.◌++◌ " " token)) ((eq_iff scheme "Bearer").0 same)
                ∙ sym (chars_assoc "Bearer" " " token),
            ground (arith, same, good, e),
          )
        ]
      ]

  -- A request goes on only with the header `Bearer`, a blank and a token that the service validates,
  -- and with the claims of that token; otherwise it is answered with an error.
  pub require_auth-authorized :
      (s : AuthService) (now : ℤ) (req : Request) (claims : Claims)
      → require_auth users crypto s now req ≡ authorized claims
      → (token : String) × (req.headers "Authorization" ≡ String.◌++◌ "Bearer " token)
        × (validate_token users crypto s now token ≡ ok claims)
  unfolding require_auth
  require_auth-authorized s now req claims e =
      elim (Bool-cases (str_eq (req.headers "Authorization") "")) [
        | inl blank ↦ absurd (ground (arith, blank, e))
        | inr some_ ↦
            with_parts-authorized s now (split_spaces (req.headers "Authorization"))
              (req.headers "Authorization") claims (join-split_spaces (req.headers "Authorization"))
              (ground (arith, some_, e))
      ]
