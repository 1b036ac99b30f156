-- ===== src/Sessions/Import/Batches.antt =====
-- What an import appends of a transcript.
use claude_agent_sdk_go.Base.{
  ℕ, suc, ◌+◌, ◌≤◌, ◌<◌, String, ◌≡◌, refl, ap, ◌∙◌, sym, subst, true, false, ◌||◌, Option, none,
  some, List, [], ◌∷◌, ◌++◌, All, length, length-append, append_assoc, append-nil, leb, arith,
  if-cases, if_true, if_false, if◌then◌else◌,
}
use claude_agent_sdk_go.Text.{is_empty, trim_right}
use claude_agent_sdk_go.Json.{Value}
use claude_agent_sdk_go.Sessions.Types.{Entry, SessionKey}
use claude_agent_sdk_go.Sessions.Import.{
  not_a_json_object, After, appended, flush, append_lines, as_entry, is_line_end, byte_length,
  import_max_bytes,
}

-- The lines hold these entries, one on each line that is not empty.
pub data Holds (parse_json : String → Option Value) : List String → List Entry → Type 0 where
  done : Holds parse_json [] []
  blank :
      {raw : String} {lines : List String} {es : List Entry}
      → is_empty (trim_right is_line_end raw) ≡ true
      → Holds parse_json lines es
      → Holds parse_json (raw ∷ lines) es
  entry :
      {raw : String} {e : Entry} {lines : List String} {es : List Entry}
      → is_empty (trim_right is_line_end raw) ≡ false
      → as_entry (parse_json (trim_right is_line_end raw)) ≡ some e
      → Holds parse_json lines es
      → Holds parse_json (raw ∷ lines) (e ∷ es)

unfoldable pub joined : List (List Entry) → List Entry
joined [] = []
joined (b ∷ bs) = b ++ joined bs

module _ {S E : Type 0} (append : SessionKey → List Entry → S → S × Option E) where
  -- The store after a series of appends
  unfoldable pub append_all : SessionKey → List (List Entry) → S → S
  append_all key [] s = s
  append_all key (b ∷ bs) s = append_all key bs (append key b s).0

  -- From `s`, the entries went into the store in batches of at most `size` entries, which gave `t`.
  pub record IsBatched (key : SessionKey) (size : ℕ) (es : List Entry) (s t : S) : Type 0 where
    pub batches : List (List Entry)
    pub all_entries : joined batches ≡ es
    pub sized : All (λ b. (1 ≤ length b) × (length b ≤ size)) batches
    pub stored : t ≡ append_all key batches s

  more-IsBatched :
      (key : SessionKey) (size : ℕ) (b es : List Entry) (s t : S)
      → 1 ≤ length b
      → length b ≤ size
      → IsBatched key size es (append key b s).0 t
      → IsBatched key size (b ++ es) s t
  unfolding joined append_all
  more-IsBatched key size b es s t some_there fits i = record {
    batches = b ∷ i.batches;
    all_entries = ap (λ xs. b ++ xs) i.all_entries;
    sized = ((some_there, fits), i.sized);
    stored = i.stored;
  }

  none-IsBatched : (key : SessionKey) (size : ℕ) (s : S) → IsBatched key size [] s s
  unfolding joined append_all
  none-IsBatched key size s = record { batches = []; all_entries = refl; sized = tt; stored = refl }

  module _ (parse_json : String → Option Value)
      (works : (k : SessionKey) (b : List Entry) (s : S) → (append k b s).1 ≡ none) where
    -- What is asked of the outcome of an import of `es` into `s`
    abbrev Lands : SessionKey → ℕ → List Entry → S → After S E → Type 0
    Lands key size es s r = (r.1 ≡ none) × IsBatched key size es s r.0

    appended_works :
        (p : S × Option E) (next : S → After S E)
        → p.1 ≡ none
        → appended append parse_json p next ≡ next p.0
    appended_works (s, none) next h = refl
    appended_works (s, some e) next h = absurd (cc)

    flush-snoc :
        (key : SessionKey) (batch : List Entry) (e : Entry) (s : S) (next : S → After S E)
        → flush append parse_json key (batch ++ e ∷ []) s next
          ≡ next (append key (batch ++ e ∷ []) s).0
    flush-snoc key [] e s next = appended_works (append key (e ∷ []) s) next (works key (e ∷ []) s)
    flush-snoc key (x ∷ xs) e s next =
        appended_works (append key (x ∷ xs ++ e ∷ []) s) next (works key (x ∷ xs ++ e ∷ []) s)

    last-Lands :
        (key : SessionKey) (size : ℕ) (batch : List Entry) (s : S)
        → length batch < size
        → Lands key size batch s (flush append parse_json key batch s (λ t. (t, none)))
    last-Lands key size [] s h = (refl, none-IsBatched key size s)
    last-Lands key size (e ∷ b) s h =
        subst (Lands key size (e ∷ b) s)
          (sym (appended_works (append key (e ∷ b) s) (λ t. (t, none)) (works key (e ∷ b) s)))
          (
            refl,
            subst (λ es. IsBatched key size es s (append key (e ∷ b) s).0) (append-nil (e ∷ b))
                (more-IsBatched key size (e ∷ b) [] s _ (omega arith) (omega (arith, h))
                  (none-IsBatched key size _)),
          )

    snoc-size : (batch : List Entry) (e : Entry) → length (batch ++ e ∷ []) ≡ suc (length batch)
    snoc-size batch e = omega (arith, length-append batch (e ∷ []))

    -- Where no Append fails and every line that is not empty is a JSON object, an import ends without
    -- an error and has appended the entries, in their order and none left out, in batches of one to
    -- `size` entries.
    pub append_lines-IsBatched :
        (path : String) (key : SessionKey) (size : ℕ) {lines : List String} {es : List Entry}
        → Holds parse_json lines es
        → (batch : List Entry) (nbytes : ℕ) (s : S) → length batch < size
        → Lands key size
            (batch ++ es)
            s
            (append_lines append parse_json path key size lines batch nbytes s)
    unfolding append_lines
    append_lines-IsBatched path key size done batch nbytes s h =
        subst (λ es. Lands key size es s (flush append parse_json key batch s (λ t. (t, none))))
          (sym (append-nil batch)) (last-Lands key size batch s h)
    append_lines-IsBatched path key size (blank {raw} {lines} {es} empty holds) batch nbytes s h =
        subst (Lands key size (batch ++ es) s) (sym (if_true _ _ _ empty))
          (append_lines-IsBatched path key size holds batch nbytes s h)
    append_lines-IsBatched path key size (entry {raw} {e} {lines} {es} full parsed holds) batch
          nbytes s h =
        let next = append_lines append parse_json path key size lines in
        let more = batch ++ e ∷ [] in
        let bytes = nbytes + byte_length (trim_right is_line_end raw) in
        let P = Lands key size (batch ++ e ∷ es) s in
        let same : more ++ es ≡ batch ++ e ∷ es = append_assoc batch (e ∷ []) es in
        let kept : P (
            if leb size (length more) || leb import_max_bytes bytes
            then flush append parse_json key more s (λ t. next [] 0 t)
            else next more bytes s) =
          if-cases P (leb size (length more) || leb import_max_bytes bytes)
            (λ _. subst P (sym (flush-snoc key batch e s (λ t. next [] 0 t))) (
              let (ends, batched) =
                append_lines-IsBatched path key size holds [] 0 (append key more s).0
                  (omega (arith, h)) in
              (
                ends,
                subst (λ xs. IsBatched key size xs s (next [] 0 (append key more s).0).0) same
                    (more-IsBatched key size more es s _ (omega (arith, snoc-size batch e))
                      (omega (arith, h, snoc-size batch e)) batched),
              )))
            (λ small.
              subst (λ xs. Lands key size xs s (next more bytes s)) same
                (append_lines-IsBatched path key size holds more bytes s
                  (ground (arith, small, snoc-size batch e)))) in
        subst P
          (sym (
            if_false _ _ _ full
            ∙ ap
                (λ o. elim o [
                  | none ↦ (s, some (not_a_json_object path))
                  | some x ↦
                      if leb size (length (batch ++ x ∷ [])) || leb import_max_bytes bytes
                      then flush append parse_json key (batch ++ x ∷ []) s (λ t. next [] 0 t)
                      else next (batch ++ x ∷ []) bytes s
                ])
                parsed))
          kept
