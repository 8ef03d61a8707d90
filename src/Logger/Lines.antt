-- ===== src/Logger/Lines.antt =====
-- Which lines `CLogger` of utils/src/Logger.cpp writes.
use Prim.Native.String.{String}
use sane_in_the_membrane.Common.{
  ◌≡◌, refl, ◌∙◌, sym, Bool, true, false, not, List, [], ◌∷◌, ◌++◌, ltb, ◌&&◌, if◌then◌else◌,
  append-nil, append_assoc, Bool-cases, inl, inr, map,
}
use sane_in_the_membrane.Logger.{
  LogLevel, Line, Logger, level_code, prefix, prefix_coloured, log, log_all, set_stdout_enabled,
}

-- Reference: the messages of a level that is high enough.
abbrev pub loud : LogLevel → List (LogLevel × String) → List (LogLevel × String)
loud threshold [] = []
loud threshold (m ∷ messages) =
    let rest = loud threshold messages in
    if ltb (level_code m.0) (level_code threshold) then rest else m ∷ rest

abbrev pub plain : LogLevel × String → Line
plain m = (prefix m.0, m.1)

abbrev pub printed : Bool → LogLevel × String → Line
printed coloured m = ((if not coloured then prefix m.0 else prefix_coloured m.0), m.1)

-- What a run of calls has written, while the settings stay as they are.
pub record Logged (messages : List (LogLevel × String)) (l l' : Logger) : Type 0 where
  pub printed_lines :
      l'.stdout ≡ l.stdout ++ map (printed l.enable_coloured_output) (loud l.level messages)
  pub file_lines : l'.log_file ≡ (
      if l.file_enabled && l.file_open
      then l.log_file ++ map plain (loud l.level messages)
      else l.log_file)

module _ (m : LogLevel × String) (messages : List (LogLevel × String)) (l : Logger) where
  abbrev heard_logger : Logger
  heard_logger = record l {
    stdout = l.stdout ++ (printed l.enable_coloured_output m ∷ []);
    log_file = if l.file_enabled && l.file_open then l.log_file ++ (plain m ∷ []) else l.log_file;
  }

  log-quiet : ltb (level_code m.0) (level_code l.level) ≡ true → log m.0 m.1 l ≡ l
  unfolding log
  log-quiet e = simp e

  log-heard : ltb (level_code m.0) (level_code l.level) ≡ false → log m.0 m.1 l ≡ heard_logger
  unfolding log
  log-heard e = simp e

  loud-quiet :
      ltb (level_code m.0) (level_code l.level) ≡ true
      → loud l.level (m ∷ messages) ≡ loud l.level messages
  loud-quiet e = rw e refl

  loud-heard :
      ltb (level_code m.0) (level_code l.level) ≡ false
      → loud l.level (m ∷ messages) ≡ m ∷ loud l.level messages
  loud-heard e = rw e refl

  Logged-quiet :
      ltb (level_code m.0) (level_code l.level) ≡ true
      → Logged messages l (log_all messages l)
      → Logged (m ∷ messages) l (log_all (m ∷ messages) l)
  unfolding log_all
  Logged-quiet e rest = rw (log-quiet e) (record {
    printed_lines = rw (loud-quiet e) rest.printed_lines;
    file_lines = rw (loud-quiet e) rest.file_lines;
  })

  Logged-heard :
      ltb (level_code m.0) (level_code l.level) ≡ false
      → Logged messages heard_logger (log_all messages heard_logger)
      → Logged (m ∷ messages) l (log_all (m ∷ messages) l)
  unfolding log_all
  Logged-heard e rest = rw (log-heard e) (record {
    printed_lines = rw (loud-heard e) (rest.printed_lines ∙ append_assoc l.stdout _ _);
    file_lines = rw (loud-heard e) (elim (Bool-cases (l.file_enabled && l.file_open)) [
      | inl open_file ↦
          rw open_file ((rw open_file at rest.file_lines) ∙ append_assoc l.log_file _ _)
      | inr no_file ↦ rw no_file (rw no_file at rest.file_lines)
    ]);
  })

-- A run of calls prints the messages whose level reaches the threshold, all of them, in order, with
-- the prefix of their level, coloured as configured; the log file gets the same messages with the
-- plain prefix if it is enabled and open, and nothing otherwise.
pub log_all-Logged :
    (messages : List (LogLevel × String)) (l : Logger) → Logged messages l (log_all messages l)
unfolding log_all
log_all-Logged [] l = record {
  printed_lines = sym (append-nil l.stdout);
  file_lines = elim (Bool-cases (l.file_enabled && l.file_open)) [
    | inl e ↦ rw e (sym (append-nil l.log_file))
    | inr e ↦ rw e refl
  ];
}
log_all-Logged (m ∷ messages) l = elim (Bool-cases (ltb (level_code m.0) (level_code l.level))) [
  | inl quiet ↦ Logged-quiet m messages l quiet (log_all-Logged messages l)
  | inr heard ↦
      Logged-heard m messages l heard (log_all-Logged messages (heard_logger m messages l))
]

-- `set_stdout_enabled` changes nothing of what a run of calls prints.
pub log_all-set_stdout_enabled :
    (enabled : Bool) (messages : List (LogLevel × String)) (l : Logger)
    → (log_all messages (set_stdout_enabled enabled l)).stdout ≡ (log_all messages l).stdout
log_all-set_stdout_enabled enabled messages l =
    (log_all-Logged messages (set_stdout_enabled enabled l)).printed_lines
    ∙ sym (log_all-Logged messages l).printed_lines
