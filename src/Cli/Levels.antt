-- ===== src/Cli/Levels.antt =====
-- Levels as they are written in the log, and read from the command line.
use nobl9_language_server.Base.{
  ◌≡◌, refl, sym, ap, ◌∙◌, true, Bool-cases, Option, none, some, inl, inr, ==_iff, if◌then◌else◌,
}
use nobl9_language_server.Text.{Bytes, codes, equal, equal_iff}
use nobl9_language_server.Files.{ℤ, pos, negsuc}
use nobl9_language_server.Cli.{
  Host, Config, level_trace, trace_name, is_trace, unmarshal_text, level_label, parse_log_level,
}

is_trace→eq : (l : ℤ) → is_trace l ≡ true → l ≡ level_trace
unfolding is_trace
is_trace→eq (pos n) h = cc
is_trace→eq (negsuc n) h = ap negsuc ((==_iff n 7).0 h)

module _ (host : Host) (upper_trace : host.to_upper trace_name ≡ trace_name)
    (slog_reads : (l : ℤ) → host.slog_unmarshal (host.to_upper (host.slog_string l)) ≡ some l)
    (slog_trace : host.slog_unmarshal trace_name ≡ none) where
  unmarshal-trace : unmarshal_text host trace_name ≡ some level_trace
  unfolding unmarshal_text equal
  unmarshal-trace =
      ap (λ name. if equal name trace_name then some level_trace else host.slog_unmarshal name)
        upper_trace

  unmarshal-slog_string : (l : ℤ) → unmarshal_text host (host.slog_string l) ≡ some l
  unfolding unmarshal_text
  unmarshal-slog_string l =
      elim (Bool-cases (equal (host.to_upper (host.slog_string l)) trace_name)) [
        | inl e ↦ absurd (
            let same : host.to_upper (host.slog_string l) ≡ trace_name = (equal_iff _ _).0 e in
            let clash : ◌≡◌ {A = Option ℤ} none (some l) =
              sym slog_trace ∙ ap host.slog_unmarshal (sym same) ∙ slog_reads l in
            cc)
        | inr e ↦ rw e (slog_reads l)
      ]

  unmarshal-level_label : (l : ℤ) → unmarshal_text host (level_label host l) ≡ some l
  unfolding level_label
  unmarshal-level_label l = elim (Bool-cases (is_trace l)) [
    | inl e ↦
        ap (λ b. unmarshal_text host (if b then trace_name else host.slog_string l)) e
        ∙ unmarshal-trace
        ∙ ap some (sym (is_trace→eq l e))
    | inr e ↦ rw e (unmarshal-slog_string l)
  ]

  parse_log_level_of :
      (config : Config) (s : Bytes) (l : ℤ)
      → unmarshal_text host s ≡ some l
      → parse_log_level host config s ≡ (record config { log_level = l }, none)
  unfolding parse_log_level
  parse_log_level_of config s l e = rw (e, parse_log_level) refl

  trace_read :
      (config : Config) (s : Bytes)
      → host.to_upper s ≡ codes "TRACE"
      → parse_log_level host config s ≡ (record config { log_level = negsuc 7 }, none)
  unfolding unmarshal_text equal codes
  trace_read config s e =
      parse_log_level_of config s (negsuc 7) (
        ap (λ name. if equal name trace_name then some level_trace else host.slog_unmarshal name) e)

  -- If slog reads what it writes for a level, whatever the case, has no level TRACE, and TRACE is
  -- upper case, then every level is read from its label in the log, by the parser of the command
  -- line too; and every text that is TRACE in upper case is read as the level -8, which has this
  -- label.
  pub parse_log_level-level_label :
      (config : Config) (l : ℤ) (s : Bytes)
      → host.to_upper s ≡ codes "TRACE"
      → (parse_log_level host config (level_label host l) ≡ (record config { log_level = l }, none))
        × (parse_log_level host config s ≡ (record config { log_level = negsuc 7 }, none))
        × (level_label host (negsuc 7) ≡ codes "TRACE")
  unfolding level_label is_trace codes
  parse_log_level-level_label config l s e = (
    parse_log_level_of config (level_label host l) l (unmarshal-level_label l),
    trace_read config s e,
    refl,
  )
