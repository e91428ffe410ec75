-- ===== src/Audit/Sink.antt =====
-- What can be read back from the lines of a sink.
use mathlib.Core.List.{append-nil, append_assoc}
use indexer_gateway_auth.Prelude.{
  ◌≡◌, refl, sym, ◌∙◌, ap, ◌≢◌, inl, inr, false, List, [], ◌∷◌, ◌++◌, if◌then◌else◌,
}
use indexer_gateway_auth.Prelude.{Bytes, All, Bool-cases, nat_eq}
use indexer_gateway_auth.Audit.{
  AuditRecord, AuditSink, stdout, file, null, Outputs, Written, whole, writeln, emit,
}

-- The lines that end in a newline, behind what is read of the first.
abbrev split : Bytes → Bytes → List Bytes
split read [] = []
split read (b ∷ bs) =
    let next = split [] bs in
    let same = split (read ++ b ∷ []) bs in if nat_eq b 10 then read ∷ next else same

abbrev pub lines : Bytes → List Bytes
lines bytes = split [] bytes

-- Behind a newline, a line begins.
split-newline :
    (read before rest : Bytes)
    → (earlier : List Bytes) × (split read (before ++ 10 ∷ rest) ≡ earlier ++ split [] rest)
split-newline read [] rest = (read ∷ [], refl)
split-newline read (b ∷ bs) rest = elim (Bool-cases (nat_eq b 10)) [
  | inl e ↦
      let (earlier, same) = split-newline [] bs rest in
      (read ∷ earlier, rw e (ap (λ l. read ∷ l) same))
  | inr e ↦ let (earlier, same) = split-newline (read ++ b ∷ []) bs rest in (earlier, rw e same)
]

split-line :
    (read line rest : Bytes)
    → All (λ b. nat_eq b 10 ≡ false) line
    → split read (line ++ 10 ∷ rest) ≡ (read ++ line) ∷ split [] rest
split-line read [] rest h = rw (append-nil read) refl
split-line read (b ∷ bs) rest (e, h) =
    rw e (split-line (read ++ b ∷ []) bs rest h ∙ rw (append_assoc read (b ∷ []) bs) refl)

-- What was written to the sink.
abbrev pub output : AuditSink → Outputs → Bytes
output stdout out = out.stdout_bytes
output file out = out.file_bytes
output null out = []

module _ (to_json_line : AuditRecord → Bytes) where
  abbrev pub emit_all : AuditSink → List (AuditRecord × Written) → Outputs → Outputs
  emit_all sink [] out = out
  emit_all sink ((rec, written) ∷ rest) out =
      emit_all sink rest (emit to_json_line written sink rec out)

  emit_all-append :
      (sink : AuditSink) (before after : List (AuditRecord × Written)) (out : Outputs)
      → emit_all sink (before ++ after) out ≡ emit_all sink after (emit_all sink before out)
  emit_all-append sink [] after out = refl
  emit_all-append sink ((rec, written) ∷ before) after out =
      emit_all-append sink before after (emit to_json_line written sink rec out)

  output-emit :
      (sink : AuditSink) (rec : AuditRecord) (written : Written) (out : Outputs)
      → sink ≢ null
      → output sink (emit to_json_line written sink rec out)
        ≡ output sink out ++ writeln (to_json_line rec) written
  unfolding emit
  output-emit stdout rec written out real = refl
  output-emit file rec written out real = refl
  output-emit null rec written out real = absurd (real refl)

  -- Nothing that was written is lost.
  output-emit_all :
      (sink : AuditSink) (recs : List (AuditRecord × Written)) (out : Outputs)
      → sink ≢ null
      → (later : Bytes) × (output sink (emit_all sink recs out) ≡ output sink out ++ later)
  output-emit_all sink [] out real = ([], sym (append-nil (output sink out)))
  output-emit_all sink ((rec, written) ∷ rest) out real =
      let (later, same) = output-emit_all sink rest (emit to_json_line written sink rec out) real in
      (
        writeln (to_json_line rec) written ++ later,
        same
            ∙ rw (output-emit sink rec written out real)
                (append_assoc (output sink out) (writeln (to_json_line rec) written) later),
      )

  -- A write that fails spoils at most the next record: if the writes of a record and of the one
  -- before it are whole, and its JSON has no newline, then it is a line of what was written to the
  -- sink, whatever the sink held and whichever writes before and after them failed midway. `Null`,
  -- which writes nothing, is excepted.
  pub emit_all-lines :
      (sink : AuditSink) (before after : List (AuditRecord × Written)) (previous rec : AuditRecord)
      (out : Outputs)
      → sink ≢ null
      → All (λ b. nat_eq b 10 ≡ false) (to_json_line rec)
      → (earlier later : List Bytes) × (lines
            (output sink (emit_all sink (before ++ (previous, whole) ∷ (rec, whole) ∷ after) out))
          ≡ earlier ++ to_json_line rec ∷ later)
  emit_all-lines sink before after previous rec out real one_line =
      let start = emit_all sink before out in
      let first = emit to_json_line whole sink previous start in
      let second = emit to_json_line whole sink rec first in
      let (behind, grown) = output-emit_all sink after second real in
      let front = output sink start ++ to_json_line previous in
      let written : output sink
            (emit_all sink (before ++ (previous, whole) ∷ (rec, whole) ∷ after) out)
          ≡ front ++ 10 ∷ (to_json_line rec ++ 10 ∷ behind) =
        rw
          (
            emit_all-append sink before ((previous, whole) ∷ (rec, whole) ∷ after) out,
            grown,
            output-emit sink rec whole first real,
            output-emit sink previous whole start real,
          )
          (four_parts (output sink start) (to_json_line previous) (to_json_line rec) behind) in
      let (earlier, same) = split-newline [] front (to_json_line rec ++ 10 ∷ behind) in
      (
        earlier,
        split [] behind,
        ap lines written
            ∙ same
            ∙ ap (λ l. earlier ++ l) (split-line [] (to_json_line rec) behind one_line),
      )
    where
      four_parts :
          (a b c d : Bytes)
          → ((a ++ (b ++ 10 ∷ [])) ++ (c ++ 10 ∷ [])) ++ d ≡ (a ++ b) ++ 10 ∷ (c ++ 10 ∷ d)
      four_parts a b c d =
          append_assoc (a ++ (b ++ 10 ∷ [])) (c ++ 10 ∷ []) d
          ∙ rw (sym (append_assoc a b (10 ∷ [])), append_assoc c (10 ∷ []) d)
              (append_assoc (a ++ b) (10 ∷ []) (c ++ 10 ∷ d))
