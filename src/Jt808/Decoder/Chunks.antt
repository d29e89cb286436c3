-- ===== src/Jt808/Decoder/Chunks.antt =====
-- internal/protocol/jt808/decoder.go: a round on a buffer to which bytes are added behind.
use tallerp_telemetry.Base.{
  ℕ, ◌+◌, ◌<◌, ◌≡◌, ◌≢◌, refl, sym, ◌∙◌, ap, List, [], ◌∷◌, ◌++◌, some, arith, ◌==◌, length,
  length-drop, take, drop, take-append_le, drop-append_le, Bytes, append-nil, Option-cases,
  Bool-cases, inl, inr,
}
use tallerp_telemetry.Jt808.Types.{Frame, delimiter}
use tallerp_telemetry.Jt808.Decoder.{
  DecodeError, index_byte, Verdict, judge, Round, wait, next, stop, judged, round,
}
use tallerp_telemetry.Jt808.Decoder.Reads.{
  plain_closed, plain_framed, plain_discarded, plain_round, round-plain,
}
use tallerp_telemetry.Jt808.Decoder.Search.{index_byte-append, index_byte-lt, drop-index_byte}

-- More bytes behind the buffer join what a plain_round leaves.
judged-append :
    (v : Verdict) (raw rest more after : Bytes) (errors : List DecodeError) (frames : List Frame)
    (reported : List DecodeError)
    → judged v raw rest errors ≡ next after frames reported
    → judged v raw (rest ++ more) errors ≡ next (after ++ more) frames reported
unfolding judged
judged-append (Verdict.accept f) raw rest more after errors frames reported h = ground arith
judged-append (Verdict.reject k) raw rest more after errors frames reported h = ground arith
judged-append Verdict.crash raw rest more after errors frames reported h = cc

closed-append :
    (max : ℕ) (errors : List DecodeError) (b more after : Bytes) (i : ℕ) (frames : List Frame)
    (reported : List DecodeError)
    → i + 1 < length b
    → plain_closed max errors b i ≡ next after frames reported
    → plain_closed max errors (b ++ more) i ≡ next (after ++ more) frames reported
unfolding plain_closed
closed-append max errors b more after i frames reported inside h =
    rw
      (
        drop-append_le 1 b more (omega arith),
        take-append_le (i + 1 + 1) b more (omega arith),
        take-append_le i (drop 1 b) more (omega (arith, length-drop 1 b)),
        drop-append_le (i + 1) b more (omega arith),
      )
      (elim (Bool-cases (i + 1 == 1)) [
        | inl empty ↦ rw empty (ground arith)
        | inr full ↦ rw full (
            judged-append (judge max (take (i + 1 + 1) b) (take i (drop 1 b))) (take (i + 1 + 1) b)
              (drop (i + 1) b) more after errors frames reported (rw full at h))
      ])

framed-append :
    (max : ℕ) (errors : List DecodeError) (b more after : Bytes) (frames : List Frame)
    (reported : List DecodeError)
    → plain_framed max errors b ≡ next after frames reported
    → plain_framed max errors (b ++ more) ≡ next (after ++ more) frames reported
unfolding plain_framed
framed-append max errors b more after frames reported h =
    elim (Option-cases (index_byte delimiter (drop 1 b))) [
      | inl e ↦ cc (rw (e, plain_framed) at h)
      | inr (i, e) ↦
          let inside : i + 1 < length b =
            omega (arith, index_byte-lt delimiter (drop 1 b) i e, length-drop 1 b) in
          rw
            (
              plain_framed,
              drop-append_le 1 b more (omega arith),
              index_byte-append delimiter (drop 1 b) more i e,
            )
            (closed-append max errors b more after i frames reported inside
              (rw (e, plain_framed) at h))
    ]

plain_append_next :
    (max : ℕ) (b more after : Bytes) (frames : List Frame) (reported : List DecodeError)
    → plain_round max b ≡ next after frames reported
    → plain_round max (b ++ more) ≡ next (after ++ more) frames reported
unfolding plain_round plain_discarded
plain_append_next max b more after frames reported h =
    elim (Option-cases (index_byte delimiter b)) [
      | inl e ↦ cc (rw (e, plain_round) at h)
      | inr (i, e) ↦
          let inside : i < length b = index_byte-lt delimiter b i e in
          rw
            (
              plain_round,
              index_byte-append delimiter b more i e,
              take-append_le i b more (omega arith),
              drop-append_le i b more (omega arith),
            )
            (framed-append max (plain_discarded i b) (drop i b) more after frames reported
              (rw (e, plain_round) at h))
    ]

-- A plain_round with errors reported in front.
unfoldable pub prefixed : List DecodeError → Round → Round
prefixed errors (wait rest more) = wait rest (errors ++ more)
prefixed errors (next rest frames more) = next rest frames (errors ++ more)
prefixed errors stop = stop

prefixed-nil : (r : Round) → prefixed [] r ≡ r
unfolding prefixed
prefixed-nil (wait rest more) = refl
prefixed-nil (next rest frames more) = refl
prefixed-nil stop = refl

judged-prefixed :
    (v : Verdict) (raw rest : Bytes) (errors : List DecodeError)
    → judged v raw rest errors ≡ prefixed errors (judged v raw rest [])
unfolding judged prefixed
judged-prefixed (Verdict.accept f) raw rest errors = rw append-nil
judged-prefixed (Verdict.reject k) raw rest errors = refl
judged-prefixed Verdict.crash raw rest errors = refl

closed-prefixed :
    (max : ℕ) (errors : List DecodeError) (b : Bytes) (i : ℕ)
    → plain_closed max errors b i ≡ prefixed errors (plain_closed max [] b i)
unfolding plain_closed
closed-prefixed max errors b i = elim (Bool-cases (i + 1 == 1)) [
  | inl empty ↦ rw empty (unfold prefixed in rw append-nil)
  | inr full ↦
      rw full (judged-prefixed (judge max (take (i + 1 + 1) b) (take i (drop 1 b))) _ _ errors)
]

framed-prefixed :
    (max : ℕ) (errors : List DecodeError) (b : Bytes)
    → plain_framed max errors b ≡ prefixed errors (plain_framed max [] b)
unfolding plain_framed
framed-prefixed max errors b = elim (Option-cases (index_byte delimiter (drop 1 b))) [
  | inl e ↦ rw (e, plain_framed) (unfold prefixed in rw append-nil)
  | inr (i, e) ↦ rw (e, plain_framed) (closed-prefixed max errors b i)
]

-- A buffer that starts with a delimiter is plain_framed at once.
round-framed :
    (max : ℕ) (b rest : Bytes) → b ≡ delimiter ∷ rest → plain_round max b ≡ plain_framed max [] b
unfolding plain_round index_byte plain_discarded
round-framed max b rest h = rw h

closed-ne-wait :
    (max : ℕ) (errors : List DecodeError) (b after : Bytes) (i : ℕ) (reported : List DecodeError)
    → plain_closed max errors b i ≢ wait after reported
unfolding plain_closed judged
closed-ne-wait max errors b after i reported =
    ground (arith, judge max (take (i + 1 + 1) b) (take i (drop 1 b)))

framed-wait :
    (max : ℕ) (errors : List DecodeError) (b after : Bytes) (reported : List DecodeError)
    → plain_framed max errors b ≡ wait after reported
    → (after ≡ b) × (reported ≡ errors)
unfolding plain_framed
framed-wait max errors b after reported h = elim (Option-cases (index_byte delimiter (drop 1 b))) [
  | inl e ↦
      let same : wait b errors ≡ wait after reported = rw (e, plain_framed) at h in
      (cc same, cc same)
  | inr (i, e) ↦ absurd (closed-ne-wait max errors b after i reported (rw (e, plain_framed) at h))
]

round-append_found :
    (max : ℕ) (b more : Bytes) (i : ℕ)
    → index_byte delimiter b ≡ some i
    → plain_round max (b ++ more) ≡ plain_framed max (plain_discarded i b) (drop i b ++ more)
unfolding plain_round plain_discarded
round-append_found max b more i e =
    let inside : i < length b = index_byte-lt delimiter b i e in
    rw (
      plain_round,
      index_byte-append delimiter b more i e,
      take-append_le i b more (omega arith),
      drop-append_le i b more (omega arith),
    )

round-found :
    (max : ℕ) (b : Bytes) (i : ℕ)
    → index_byte delimiter b ≡ some i
    → plain_round max b ≡ plain_framed max (plain_discarded i b) (drop i b)
unfolding plain_round
round-found max b i e = rw (plain_round, e)

-- After a plain_round that waits, more bytes are read from what the plain_round kept.
plain_append_wait :
    (max : ℕ) (b more after : Bytes) (reported : List DecodeError)
    → plain_round max b ≡ wait after reported
    → plain_round max (b ++ more) ≡ prefixed reported (plain_round max (after ++ more))
unfolding plain_round
plain_append_wait max b more after reported h = elim (Option-cases (index_byte delimiter b)) [
  | inl e ↦
      let same : wait b [] ≡ wait after reported = rw (e, plain_round) at h in
      let kept : b ≡ after = cc same in
      let none_told : [] ≡ reported = cc same in rw (← kept, ← none_told, prefixed-nil)
  | inr (i, e) ↦
      let (kept, told) =
        framed-wait max (plain_discarded i b) (drop i b) after reported
          (sym (round-found max b i e) ∙ h) in
      let (rest, starts) = drop-index_byte delimiter b i e in
      rw (kept, told)
        (round-append_found max b more i e
          ∙ framed-prefixed max (plain_discarded i b) (drop i b ++ more)
          ∙ ap (prefixed (plain_discarded i b)) (
              sym
                (round-framed max (drop i b ++ more) (rest ++ more) (ap (λ s. s ++ more) starts))))
]

pub round-append_next :
    (max : ℕ) (b more after : Bytes) (frames : List Frame) (reported : List DecodeError)
    → round max b ≡ next after frames reported
    → round max (b ++ more) ≡ next (after ++ more) frames reported
round-append_next max b more after frames reported h =
    round-plain max (b ++ more)
    ∙ plain_append_next max b more after frames reported (sym (round-plain max b) ∙ h)

pub round-append_wait :
    (max : ℕ) (b more after : Bytes) (reported : List DecodeError)
    → round max b ≡ wait after reported
    → round max (b ++ more) ≡ prefixed reported (round max (after ++ more))
round-append_wait max b more after reported h =
    round-plain max (b ++ more)
    ∙ plain_append_wait max b more after reported (sym (round-plain max b) ∙ h)
    ∙ ap (prefixed reported) (sym (round-plain max (after ++ more)))
