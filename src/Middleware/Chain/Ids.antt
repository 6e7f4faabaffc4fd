-- ===== src/Middleware/Chain/Ids.antt =====
-- The id that a response carries.
use api_gateway.Common.{
  List, [], ◌∷◌, ◌++◌, append_assoc, false, ◌≡◌, sym, ap, ◌∙◌, subst, ◌⊎◌, inl, inr,
}
use api_gateway.Middleware.Context.{
  Call, set_header, json, Context, Flow, done, panicked, Handler, Gin,
}
use api_gateway.Middleware.Chain.{id_of, Parts, setup_middleware}
use api_gateway.Middleware.Chain.Logged.{gates, identified, logged, failed, serve-logged}
use api_gateway.Middleware.Chain.Gates.{
  Extends, preflight, bad_key, refused, broken, passed, gates-Gate,
}

-- The context that a handler leaves.
abbrev pub left : {World : Type 0} → Flow World → Context World
left (done c) = c
left (panicked c) = c

module _ {World : Type 0} (gin : Gin World) (parts : Parts World) where
  open gin use {run}
  open parts use {new_uuid}

  Extends-trans : (c d e : Context World) → Extends c d → Extends d e → Extends c e
  Extends-trans c d e (w, f) (v, g) =
      (w ++ v, g ∙ ap (λ calls. calls ++ v) f ∙ append_assoc c.calls w v)

  left-Extends :
      (c d : Context World) (flow : Flow World)
      → flow ≡ done d ⊎ flow ≡ panicked d
      → Extends c d
      → Extends c (left flow)
  left-Extends c d flow (inl e) more = subst (λ f. Extends c (left f)) (sym e) more
  left-Extends c d flow (inr e) more = subst (λ f. Extends c (left f)) (sym e) more

  gates-Extends :
      (routes : List (Handler World)) (c : Context World)
      → c.aborted ≡ false
      → ((d : Context World) → Extends d (left (run routes d)))
      → Extends c (left (run (gates parts routes) c))
  gates-Extends routes c fresh appends = elim (gates-Gate gin parts c fresh) [
    | preflight m (d, w, a, (b, e), f) ↦ left-Extends c d _ (inl (f routes)) (_, e)
    | bad_key m v (d, w, a, (b, e), f) ↦ left-Extends c d _ (inl (f routes)) (_, e)
    | refused m v n s (d, w, a, (b, e), f) ↦ left-Extends c d _ (inl (f routes)) (_, e)
    | broken m v p d more f ↦ left-Extends c d _ (inr (f routes)) more
    | passed m v h p d more w a same k f ↦
        subst (λ flow. Extends c (left flow)) (sym (f routes))
          (Extends-trans c d (left (run routes d)) more (appends d))
  ]

  -- Whatever happens to a request, the first thing that is written to its response is the header
  -- `X-Request-ID`, with the id of the request's header, or else a new one.
  pub serve-id :
      (routes : List (Handler World)) (c : Context World)
      → c.aborted ≡ false
      → c.calls ≡ []
      → ((d : Context World) → Extends d (left (run routes d)))
      → (rest : List Call) × ((left (run (setup_middleware parts ++ routes) c)).calls
          ≡ set_header "X-Request-ID" (id_of new_uuid c.request) ∷ rest)
  unfolding logged failed identified
  serve-id routes c fresh blank appends =
      let c1 = identified parts c in
      let (more, e) = gates-Extends routes c1 fresh appends in
      let start = set_header "X-Request-ID" (id_of new_uuid c.request) ∷ [] in
      let calls_of : Flow World → List Call = λ flow. (left flow).calls in
      let first : calls_of (run (gates parts routes) c1) ≡ start ++ more =
        e ∙ ap (λ calls. (calls ++ start) ++ more) blank in
      elim (serve-logged gin parts routes c fresh) [
        | inl (d, f, g) ↦ (more, ap calls_of g ∙ sym (ap calls_of f) ∙ first)
        | inr (d, f, g) ↦ (
          more ++ json 500 ∷ [],
          ap calls_of g ∙ ap (λ calls. calls ++ json 500 ∷ []) (sym (ap calls_of f) ∙ first),
        )
      ]
