-- ===== src/Http/Whole.antt =====
-- The body of a request as a whole: the chunks in which it comes do not matter.
use clawclub_server.Errors.ErrorCode.{payload_too_large}
use clawclub_server.Common.{
  ℕ, ◌+◌, ◌≤◌, ◌≡◌, refl, sym, ap, ◌∙◌, inl, inr, true, false, none, some, List, [], ◌∷◌, ◌++◌, map,
  arith, ltb, if◌then◌else◌, length, Bool-cases, ltb→lt, lt→ltb, length-append, append_assoc,
  append-nil,
}
use clawclub_server.Http.Body.{
  BodyEvent, BodyOutcome, BodyCodec, BodyReader, concat, answer_body, on_event, read_event,
  read_events, read_json_body,
}
use clawclub_server.Http.Body.BodyEvent.{data_event, end_event}
use clawclub_server.Http.Body.BodyOutcome.{rejected}

concat-append : (xs ys : List (List ℕ)) → concat (xs ++ ys) ≡ concat xs ++ concat ys
unfolding concat
concat-append [] ys = refl
concat-append (x ∷ xs) ys = rw (concat-append xs ys) (sym (append_assoc x (concat xs) (concat ys)))

concat_one : (c : List ℕ) → concat (c ∷ []) ≡ c
unfolding concat
concat_one c = append-nil c

length-concat-snoc :
    (chunks : List (List ℕ)) (c : List ℕ)
    → length (concat (chunks ++ c ∷ [])) ≡ length (concat chunks) + length c
length-concat-snoc chunks c =
    ap length (concat-append chunks (c ∷ []) ∙ ap (λ z. concat chunks ++ z) (concat_one c))
    ∙ length-append (concat chunks) c

length-concat-cons :
    (chunks cs : List (List ℕ)) (c : List ℕ)
    → length (concat chunks) + length c ≤ length (concat (chunks ++ c ∷ cs))
unfolding concat
length-concat-cons chunks cs c = omega (
  arith,
  ap length (concat-append chunks (c ∷ cs)),
  length-append (concat chunks) (c ++ concat cs),
  length-append c (concat cs),
)

module _ {Object : Type 0} (codec : BodyCodec Object) where
  -- The outcome of a whole body: too large, or what `onEnd` makes of it.
  unfoldable pub whole_outcome : (max_body_bytes : ℕ) (body : List ℕ) → BodyOutcome Object
  whole_outcome max_body_bytes body =
      if ltb max_body_bytes (length body)
      then rejected payload_too_large
      else answer_body codec body

  -- A reader that still reads.
  abbrev reading : (chunks : List (List ℕ)) (total_bytes : ℕ) → BodyReader Object
  reading chunks total_bytes = record { chunks = chunks; total_bytes = total_bytes; settled = none }

  stays_settled :
      (limit : ℕ) (events : List BodyEvent) (reader : BodyReader Object)
      (outcome : BodyOutcome Object)
      → reader.settled ≡ some outcome
      → (read_events codec limit events reader).settled ≡ some outcome
  unfolding read_events read_event
  stays_settled limit [] reader outcome e = e
  stays_settled limit (event ∷ events) reader outcome e =
      stays_settled limit events (read_event codec limit event reader) outcome (rw e refl)

  whole_large :
      (limit : ℕ) (body : List ℕ)
      → ltb limit (length body) ≡ true
      → whole_outcome limit body ≡ rejected payload_too_large
  unfolding whole_outcome
  whole_large limit body h = rw h refl

  whole_small :
      (limit : ℕ) (body : List ℕ)
      → ltb limit (length body) ≡ false
      → whole_outcome limit body ≡ answer_body codec body
  unfolding whole_outcome
  whole_small limit body h = rw h refl

  data_large :
      (limit : ℕ) (c : List ℕ) (chunks : List (List ℕ)) (total : ℕ)
      → ltb limit (total + length c) ≡ true
      → (read_event codec limit (data_event c) (reading chunks total)).settled
        ≡ some (rejected payload_too_large)
  unfolding read_event on_event
  data_large limit c chunks total h = rw h refl

  data_small :
      (limit : ℕ) (c : List ℕ) (chunks : List (List ℕ)) (total : ℕ)
      → ltb limit (total + length c) ≡ false
      → read_event codec limit (data_event c) (reading chunks total)
        ≡ reading (chunks ++ c ∷ []) (total + length c)
  unfolding read_event on_event
  data_small limit c chunks total h = rw h refl

  read_chunks :
      (limit : ℕ) (cs chunks : List (List ℕ)) (total : ℕ) (later : List BodyEvent)
      → total ≡ length (concat chunks)
      → total ≤ limit
      → (read_events codec limit
          (map data_event cs ++ end_event ∷ later)
          (reading chunks total)).settled
        ≡ some (whole_outcome limit (concat (chunks ++ cs)))
  unfolding read_events read_event on_event
  read_chunks limit [] chunks total later e fits =
      stays_settled limit later (read_event codec limit end_event (reading chunks total))
        (answer_body codec (concat chunks)) refl
      ∙ ap some (sym (whole_small limit (concat chunks) (ground (arith, e))))
      ∙ ap (λ z. some (whole_outcome limit (concat z))) (sym (append-nil chunks))
  read_chunks limit (c ∷ cs) chunks total later e fits =
      elim (Bool-cases (ltb limit (total + length c))) [
        | inl large ↦
            stays_settled limit (map data_event cs ++ end_event ∷ later)
              (read_event codec limit (data_event c) (reading chunks total))
              (rejected payload_too_large) (data_large limit c chunks total large)
            ∙ ap some (
                sym (
                  whole_large limit (concat (chunks ++ c ∷ cs)) (
                    lt→ltb _ _ (
                      omega (
                        arith,
                        e,
                        ltb→lt limit (total + length c) large,
                        length-concat-cons chunks cs c,
                      )))))
        | inr small ↦
            ap (λ r. (read_events codec limit (map data_event cs ++ end_event ∷ later) r).settled)
              (data_small limit c chunks total small)
            ∙ read_chunks limit cs (chunks ++ c ∷ []) (total + length c) later
                (omega (arith, e, length-concat-snoc chunks c)) (ground (arith, small))
            ∙ ap (λ z. some (whole_outcome limit (concat z))) (append_assoc chunks (c ∷ []) cs)
      ]

  -- A body that is delivered in full is read the same however it is cut into chunks, and whatever
  -- comes after its end: it is refused with payload_too_large exactly if it is longer than the limit,
  -- and otherwise answered from all of its bytes in their order.
  pub read_json_body-eq-whole :
      (limit : ℕ) (cs : List (List ℕ)) (later : List BodyEvent)
      → read_json_body codec limit (map data_event cs ++ end_event ∷ later)
        ≡ some (whole_outcome limit (concat cs))
  unfolding read_json_body concat
  read_json_body-eq-whole limit cs later = read_chunks limit cs [] 0 later refl (omega arith)
