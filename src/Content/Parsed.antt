-- ===== src/Content/Parsed.antt =====
-- What is read from a transaction's outputs.
use boostpow_api.Base.{
  ℕ, suc, ◌+◌, String, true, Option, none, some, List, [], ◌∷◌, ◌≡◌, refl, sym, ap, ◌∙◌, inl, inr,
  Bool-cases, Option-cases, arith,
}
use mathlib.Core.Path.{subst}
use native.Mathlib.Nat.{add-zero}
use boostpow_api.Base.Lists.{All, get_elem?, cons_option}
use boostpow_api.Base.Action.{Result, ok, err, Result-cases, ok≢err}
use boostpow_api.Content.{given, or_text, Output, Txo, Event, Env}
use boostpow_api.Content.Outputs.{
  Parsed, parse_from, is_event_prefix, is_signed, author_of, event, read_event, parse_event,
  parse_event_outputs,
}

module _ {A : Type 0} (callback : ℕ → Output → Parsed A) where
  -- The element is what the callback gave for some output, at its place.
  abbrev pub IsFrom : ℕ → List Output → A → Type 0
  IsFrom base outputs x =
      (j : ℕ) × (o : Output) × (get_elem? outputs j ≡ some o)
      × (callback (base + j) o ≡ ok (some x))

  abbrev AllFrom : ℕ → List Output → Result (List A) → Type 0
  AllFrom base outputs (ok xs) = All (IsFrom base outputs) xs
  AllFrom base outputs (err e) = Unit

  later :
      (base : ℕ) (o : Output) (outputs : List Output) (xs : List A)
      → All (IsFrom (base + 1) outputs) xs
      → All (IsFrom base (o ∷ outputs)) xs
  later base o outputs [] h = tt
  later base o outputs (x ∷ xs) ((j, p, there, e), h) =
      let shift : base + 1 + j ≡ base + suc j = omega arith in
      ((suc j, p, there, rw shift at e), later base o outputs xs h)

  combine :
      (base : ℕ) (o : Output) (outputs : List Output) (found : Option A) (xs : List A)
      → callback base o ≡ ok found
      → All (IsFrom (base + 1) outputs) xs
      → All (IsFrom base (o ∷ outputs)) (cons_option found xs)
  combine base o outputs none xs e h = later base o outputs xs h
  combine base o outputs (some x) xs e h =
      let zero_more : base + 0 ≡ base = add-zero base in
      ((0, o, refl, rw zero_more e), later base o outputs xs h)

  parse_from-AllFrom :
      (base : ℕ) (outputs : List Output) → AllFrom base outputs (parse_from callback base outputs)
  unfolding parse_from
  parse_from-AllFrom base [] = tt
  parse_from-AllFrom base (o ∷ outputs) = elim (Result-cases (callback base o)) [
    | inr (x, failed) ↦ rw (failed, parse_from) tt
    | inl (found, e) ↦ elim (Result-cases (parse_from callback (base + 1) outputs)) [
      | inr (x, failed) ↦ rw (e, parse_from, failed) tt
      | inl (xs, k) ↦
          rw (e, parse_from, k)
            (combine base o outputs found xs e (rw k at (parse_from-AllFrom (base + 1) outputs)))
    ]
  ]

module _ (env : Env) where
  -- Neither author nor signature, or both, from a signed output, and verified.
  abbrev pub IsAuthored : Output → Option String → Option String → Type 0
  IsAuthored o none none = Unit
  IsAuthored o (some identity) (some signature) =
      (is_signed env o ≡ true)
      × (given o.s9 ≡ some identity)
      × (given o.s10 ≡ some signature)
      × (env.verify (or_text o.s5 o.ls5) signature identity ≡ ok true)
  IsAuthored o _ _ = ⊥

  -- The event is that of the output at its index.
  abbrev pub IsEventOf : Txo → Event → Type 0
  IsEventOf txo e =
      (o : Output) × (s2 : String) × (get_elem? txo.out e.tx_index ≡ some o)
      × (o.s2 ≡ some s2)
      × (is_event_prefix env s2 ≡ true)
      × (given o.s3 ≡ some e.app)
      × (given o.s4 ≡ some e.type)
      × (env.parse_json (or_text o.s5 o.ls5) ≡ ok e.content)
      × (e.txid ≡ txo.hash)
      × IsAuthored o e.author e.signature

  -- What the authors' part of an output answers with.
  abbrev pub IsSignature : Output → Result (Option (String × String)) → Type 0
  IsSignature o (ok (some (identity, signature))) = IsAuthored o (some identity) (some signature)
  IsSignature o _ = Unit

  author_of-IsSignature : (o : Output) → IsSignature o (author_of env (or_text o.s5 o.ls5) o)
  unfolding author_of
  author_of-IsSignature o = elim (Bool-cases (is_signed env o)) [
    | inr f ↦ rw (f, author_of) tt
    | inl t ↦ elim (Option-cases (given o.s9)) [
      | inl e ↦ rw (t, author_of, e) tt
      | inr (identity, e) ↦ elim (Option-cases (given o.s10)) [
        | inl k ↦ rw (t, author_of, e, k) tt
        | inr (signature, k) ↦
            elim (Result-cases (env.verify (or_text o.s5 o.ls5) signature identity)) [
              | inr (x, failed) ↦ rw (t, author_of, e, k, failed) tt
              | inl (verified, v) ↦ elim (Bool-cases verified) [
                | inl same ↦ rw (t, author_of, e, k, v, same) (t, e, k, v ∙ ap ok same)
                | inr differs ↦ rw (t, author_of, e, k, v, differs) tt
              ]
            ]
      ]
    ]
  ]

  -- What one output's event says of it.
  abbrev IsRead : String → ℕ → Output → Parsed Event → Type 0
  IsRead hash index o (ok (some e)) =
      (e.tx_index ≡ index)
      × (e.txid ≡ hash)
      × ((s2 : String) × (o.s2 ≡ some s2) × (is_event_prefix env s2 ≡ true))
      × (given o.s3 ≡ some e.app)
      × (given o.s4 ≡ some e.type)
      × (env.parse_json (or_text o.s5 o.ls5) ≡ ok e.content)
      × IsAuthored o e.author e.signature
  IsRead hash index o _ = Unit

  event-IsRead :
      (hash app type content s2 : String) (index : ℕ) (o : Output)
      (signed : Option (String × String))
      → o.s2 ≡ some s2
      → is_event_prefix env s2 ≡ true
      → given o.s3 ≡ some app
      → given o.s4 ≡ some type
      → env.parse_json (or_text o.s5 o.ls5) ≡ ok content
      → IsSignature o (ok signed)
      → IsRead hash index o (ok (some (event env app type content signed index hash)))
  event-IsRead hash app type content s2 index o none p pre a t c s =
      (refl, refl, (s2, p, pre), a, t, c, tt)
  event-IsRead hash app type content s2 index o (some (identity, signature)) p pre a t c s =
      (refl, refl, (s2, p, pre), a, t, c, s)

  read_event-IsRead :
      (hash app type s2 : String) (index : ℕ) (o : Output)
      → o.s2 ≡ some s2
      → is_event_prefix env s2 ≡ true
      → given o.s3 ≡ some app
      → given o.s4 ≡ some type
      → IsRead hash index o (read_event env hash app type index o)
  unfolding read_event
  read_event-IsRead hash app type s2 index o p pre a t =
      elim (Bool-cases (env.is_json (or_text o.s5 o.ls5))) [
        | inr f ↦ rw (f, read_event) tt
        | inl j ↦ elim (Result-cases (env.parse_json (or_text o.s5 o.ls5))) [
          | inr (x, failed) ↦ rw (j, read_event, failed) tt
          | inl (content, c) ↦ elim (Result-cases (author_of env (or_text o.s5 o.ls5) o)) [
            | inr (x, failed) ↦ rw (j, read_event, c, failed) tt
            | inl (signed, e) ↦
                rw (j, read_event, c, e)
                  (event-IsRead hash app type content s2 index o signed p pre a t c
                    (rw e at (author_of-IsSignature o)))
          ]
        ]
      ]

  parse_event_eq :
      (hash app type s2 : String) (index : ℕ) (o : Output)
      → o.s2 ≡ some s2
      → is_event_prefix env s2 ≡ true
      → given o.s3 ≡ some app
      → given o.s4 ≡ some type
      → parse_event env hash index o ≡ read_event env hash app type index o
  unfolding parse_event read_event
  parse_event_eq hash app type s2 index o p pre a t = rw (p, parse_event, pre, a, t)

  parse_event-IsRead :
      (hash : String) (index : ℕ) (o : Output) → IsRead hash index o (parse_event env hash index o)
  unfolding parse_event
  parse_event-IsRead hash index o = elim (Option-cases o.s2) [
    | inl e ↦ rw (e, parse_event) tt
    | inr (s2, p) ↦ elim (Bool-cases (is_event_prefix env s2)) [
      | inr f ↦ rw (p, parse_event, f) tt
      | inl pre ↦ elim (Option-cases (given o.s3)) [
        | inl e ↦ rw (p, parse_event, pre, e) tt
        | inr (app, a) ↦ elim (Option-cases (given o.s4)) [
          | inl e ↦ rw (p, parse_event, pre, a, e) tt
          | inr (type, t) ↦
              subst (IsRead hash index o) (sym (parse_event_eq hash app type s2 index o p pre a t))
                (read_event-IsRead hash app type s2 index o p pre a t)
        ]
      ]
    ]
  ]

  IsFrom-IsEventOf :
      (txo : Txo) (e : Event) → IsFrom (parse_event env txo.hash) 0 txo.out e → IsEventOf txo e
  IsFrom-IsEventOf txo e (j, o, there, k) =
      let (at_j, hash, (s2, p, pre), a, t, c, authored) =
        rw k at (parse_event-IsRead txo.hash (0 + j) o) in
      let same : 0 + j ≡ j = omega arith in
      (o, s2, rw (at_j, same) there, p, pre, a, t, c, hash, authored)

  All-IsEventOf :
      (txo : Txo) (es : List Event)
      → All (IsFrom (parse_event env txo.hash) 0 txo.out) es
      → All (IsEventOf txo) es
  All-IsEventOf txo [] h = tt
  All-IsEventOf txo (e ∷ es) (h, hs) = (IsFrom-IsEventOf txo e h, All-IsEventOf txo es hs)

  -- If the events of a transaction are read, then the package txo reads the transaction, and each
  -- event is that of the output at its index: the output has the prefix and the event's app, type
  -- and JSON; and an event has an author only with a signature, if the output is marked as signed,
  -- names both, and the signature of the JSON is verified for this author.
  pub parse_event_outputs-IsEventOf :
      (txhex : String) (events : List Event)
      → parse_event_outputs env txhex ≡ ok events
      → (txo : Txo) × (env.txo_of txhex ≡ ok txo) × All (IsEventOf txo) events
  unfolding parse_event_outputs
  parse_event_outputs-IsEventOf txhex events h = elim (Result-cases (env.txo_of txhex)) [
    | inr (x, failed) ↦ absurd (ok≢err (sym (rw (failed, parse_event_outputs) at h)))
    | inl (txo, e) ↦
        let same : parse_from (parse_event env txo.hash) 0 txo.out ≡ ok events =
          rw (e, parse_event_outputs) at h in
        (
          txo,
          e,
          All-IsEventOf txo events
              (rw same at (parse_from-AllFrom (parse_event env txo.hash) 0 txo.out)),
        )
  ]
