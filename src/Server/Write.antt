-- ===== src/Server/Write.antt =====
-- internal/server/connection.go: `writeACK`. What the n-th `Write` of a socket returns for some bytes is a
-- parameter, `none` an error; the standard library's writers return at most the number of the bytes.
use tallerp_telemetry.Base.{
  ℕ, zero, suc, ◌≡◌, ◌≢◌, ◌≤◌, ◌∙◌, sym, refl, ap, arith, Bool, true, false, [], ◌∷◌, ◌++◌,
  append_assoc, append-nil, Option, none, some, ltb, ◌==◌, le→ltb_false, either_side, subst,
  Option-cases, inl, inr, take, drop, length, length-drop, take-append-drop, Bytes, if◌then◌else◌,
}

pub data WriteEnd : Type 0 where
  all_written write_error short_write write_panicked write_unfinished : WriteEnd

-- The loop; `sent` is what was written so far. `ack[written:]` panics if more was written than there was.
write_loop : (ℕ → Bytes → Option ℕ) → ℕ → ℕ → Bytes → Bytes → Bytes × WriteEnd
write_loop socket fuel n sent [] = (sent, all_written)
write_loop socket zero n sent (b ∷ ack) = (sent, write_unfinished)
write_loop socket (suc fuel) n sent (b ∷ ack) = elim (socket n (b ∷ ack)) [
  | none ↦ (sent, write_error)
  | some written ↦
      let more =
        write_loop socket fuel (suc n) (sent ++ take written (b ∷ ack)) (drop written (b ∷ ack)) in
      if written == 0
      then (sent, short_write)
      else if ltb (length (b ∷ ack)) written
      then (sent, write_panicked)
      else more
]

-- Every round but the last writes a byte. `deadline` is whether the deadline can be set.
unfoldable pub write_ack : (ℕ → Bytes → Option ℕ) → Bool → Bytes → Bytes × WriteEnd
unfolding write_loop
write_ack socket deadline ack =
    if deadline then write_loop socket (length ack) 0 [] ack else ([], write_error)

-- `io.Writer`: what a write returns is at most the number of the bytes.
abbrev pub IsWriter : (ℕ → Bytes → Option ℕ) → Type 0
IsWriter socket =
    (n : ℕ) (bytes : Bytes) (written : ℕ) → socket n bytes ≡ some written → written ≤ length bytes

-- What was sent is a beginning of the answer, and all of it where the write succeeded; the loop ends, and
-- it does not panic.
pub record IsWritten (ack : Bytes) (result : Bytes × WriteEnd) : Type 0 where
  pub beginning : (rest : Bytes) × (result.0 ++ rest ≡ ack)
  pub whole : result.1 ≡ all_written → result.0 ≡ ack
  pub ends : (result.1 ≢ write_unfinished) × (result.1 ≢ write_panicked)

nothing_left : (sent : Bytes) → IsWritten (sent ++ []) (sent, all_written)
nothing_left sent = record {
  beginning = ([], refl);
  whole = λ e. sym (append-nil sent);
  ends = ((λ e. cc), λ e. cc);
}

module _ (socket : ℕ → Bytes → Option ℕ) (writer : IsWriter socket) where
  write_loop-IsWritten :
      (fuel n : ℕ) (sent ack : Bytes)
      → length ack ≤ fuel
      → IsWritten (sent ++ ack) (write_loop socket fuel n sent ack)
  unfolding write_loop
  write_loop-IsWritten zero n sent [] h = nothing_left sent
  write_loop-IsWritten (suc fuel) n sent [] h = nothing_left sent
  write_loop-IsWritten zero n sent (b ∷ ack) h = absurd (omega arith)
  write_loop-IsWritten (suc fuel) n sent (b ∷ ack) h =
      let whole = sent ++ b ∷ ack in
      let cut_off : (e : WriteEnd)
          → e ≢ all_written
          → e ≢ write_unfinished
          → e ≢ write_panicked
          → IsWritten whole (sent, e) =
        λ e h k l. record {
          beginning = (b ∷ ack, refl);
          whole = λ p. absurd (h p);
          ends = (k, l);
        } in
      elim (Option-cases (socket n (b ∷ ack))) [
        | inl lost ↦ rw (lost, write_loop) (cut_off write_error (λ p. cc) (λ p. cc) (λ p. cc))
        | inr (written, wrote) ↦
            let fits = writer n (b ∷ ack) written wrote in
            let within : ltb (length (b ∷ ack)) written ≡ false = le→ltb_false _ _ fits in
            rw (wrote, within, write_loop)
              (either_side (IsWritten whole) (written == 0)
                (λ _. cut_off short_write (λ p. cc) (λ p. cc) (λ p. cc))
                (λ some_written.
                  let left = drop written (b ∷ ack) in
                  let seam : (sent ++ take written (b ∷ ack)) ++ left ≡ whole =
                    append_assoc sent (take written (b ∷ ack)) left
                    ∙ ap (λ x. sent ++ x) (take-append-drop written (b ∷ ack)) in
                  subst
                    (λ x.
                      IsWritten x
                        (write_loop socket fuel (suc n) (sent ++ take written (b ∷ ack)) left))
                    seam
                    (write_loop-IsWritten fuel (suc n) (sent ++ take written (b ∷ ack)) left
                      (ground (arith, length-drop written (b ∷ ack))))))
      ]

  -- Writing an answer to a socket whose writes return at most the number of the bytes ends and
  -- does not panic; what was sent is a beginning of the answer, and all of it if the write
  -- succeeded.
  pub write_ack-IsWritten :
      (deadline : Bool) (ack : Bytes) → IsWritten ack (write_ack socket deadline ack)
  unfolding write_ack
  write_ack-IsWritten true ack = write_loop-IsWritten (length ack) 0 [] ack (omega arith)
  write_ack-IsWritten false ack = record {
    beginning = (ack, refl);
    whole = λ e. cc;
    ends = ((λ e. cc), λ e. cc);
  }
