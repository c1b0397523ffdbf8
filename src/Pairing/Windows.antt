-- ===== src/Pairing/Windows.antt =====
-- The pairing handlers of backrd's ipc/handlers.rs, and the end of `serve` in pairing/listener.rs: the
-- two slots of a pairing window, one step for each lock that a task takes. Times are seconds.
use backr.Base.{
  Bool-eq, Result-cases, All-lines, lines-lack_newline, ap₂, trim_idem, trim-strip_cr,
  strip_cr_of_lacks, All-trim, All-trim_start_by, All-trim_end_by, lines-append, lines_line,
  map-trim-lines-finish, strip_prefix, splitn_from, splitn, ends_with_char, split-nil,
  split-cons_sep, ltb, leb, ◌==◌, if◌then◌else◌, ==_iff, ==_self, Bool-cases, Option-cases, length,
  take, head?, any, filter, length-append, length-filter, filter-append, All, All-append,
  All-append_iff, All-map, All-filter, Text, codes, eq_text, is_empty, contains_char, starts_with,
  contains, is_whitespace, trim_start_by, trim_end_by, trim, split_from, split, join, replace_char,
  strip_cr, lines_from, lines, is_digit, digits_from, parse_uint, eq_text→≡, eq_text_self,
  eq_text_iff, contains_char-eq-false_iff, split_from-append, split-append, split_from_of_lacks,
  trim_end_by_parts, trim_start_by_parts, trim_start_by-cons, trim_end_by-concat, is_empty-concat,
  ne_of_eq_text, eq_text_of_ne, ne_nil_of_is_empty, is_empty_of_ne_nil, Result, ok, err, map_err,
  ok_or, to_option, >>=-eq-ok, ℕ, zero, suc, ◌+◌, ◌-◌, ◌*◌, ◌/◌, ◌%◌, ◌^◌, ◌≤◌, ◌<◌, String, ◌≡◌,
  refl, sym, ap, ◌∙◌, subst, ◌≢◌, ◌↔◌, ◌⊎◌, inl, inr, Bool, true, false, ◌&&◌, ◌||◌, not, Option,
  none, some, List, [], ◌∷◌, ◌++◌, map, reverse, append-nil, append_assoc, map-append,
  reverse-append, arith,
}
use backr.Pairing.Code.{PairingSession, new_session, validate}
pub mod Tasks
pub mod Invariant
pub mod Runs
pub mod Bounded
pub mod Closing

abbrev pub pairing_ttl_secs : ℕ
pairing_ttl_secs = 180

-- `PairingRuntime`, by the port of its listener. When it was stored is known to the model only.
pub record PairingRuntime : Type 0 where
  pub port : ℕ
  pub opened_at : ℕ

pub record Slots : Type 0 where
  pub pairing : Option PairingSession
  pub pairing_runtime : Option PairingRuntime
  pub now : ℕ

-- A task before its next lock. `taking` and `clearing` are `stop_pairing_internal`, on behalf of a start
-- if the flag is set; `binding` to `publishing` are the rest of a start; `sleeping` is the task that
-- closes the window.
pub data Task : Type 0 where
  taking : Bool → Task
  clearing : Bool → Task
  binding : Task
  storing : PairingSession → ℕ → Task
  publishing : ℕ → Task
  sleeping : ℕ → Task

unfoldable pub is_open : Slots → Bool
is_open s = elim s.pairing_runtime [ none ↦ false | some _ ↦ true ]

-- One step of a task. The host's details, its listener and its advertisement give a number for the code
-- and a port, or fail.
unfoldable pub advance : Task → Option (ℕ × ℕ) → Slots → Slots × Option Task
advance (taking starts) a s = (record s { pairing_runtime = none }, some (clearing starts))
advance (clearing starts) a s = (record s { pairing = none }, if starts then some binding else none)
advance binding none s = (s, none)
advance binding (some (n, port)) s = (s, some (storing (new_session n) port))
advance (storing session port) a s = (record s { pairing = some session }, some (publishing port))
advance (publishing port) a s = (
  record s { pairing_runtime = some (record { port = port; opened_at = s.now }) },
  some (sleeping (s.now + pairing_ttl_secs)),
)
advance (sleeping deadline) a s =
    if ltb s.now deadline
    then (s, some (sleeping deadline))
    else (s, if is_open s then some (taking false) else none)

pub record Windows : Type 0 where
  pub slots : Slots
  pub tasks : List Task

-- What happens next: a call of start_pairing or of stop_pairing, a request that tries a code, the end of
-- a listener that has paired, the passing of time, or one step of the task at a place.
pub data Action : Type 0 where
  start_pairing : Action
  stop_pairing : Action
  try_code : Text → Action
  paired : Action
  pass : ℕ → Action
  step_task : ℕ → Option (ℕ × ℕ) → Action

unfoldable pub step_at : ℕ → Option (ℕ × ℕ) → List Task → Slots → Slots × List Task
step_at n a [] s = (s, [])
step_at zero a (t ∷ ts) s =
    let (s', next) = advance t a s in (s', elim next [ none ↦ ts | some t' ↦ t' ∷ ts ])
step_at (suc n) a (t ∷ ts) s = let (s', ts') = step_at n a ts s in (s', t ∷ ts')

-- the session after `process_pair` has looked at a code
unfoldable pub tried : Text → Option PairingSession → Option PairingSession
tried code none = none
tried code (some session) = some (validate code session).0

unfoldable pub act : Action → Windows → Windows
act start_pairing d = record d { tasks = taking true ∷ d.tasks }
act stop_pairing d = record d { tasks = taking false ∷ d.tasks }
act (try_code code) d = record d { slots = record d.slots { pairing = tried code d.slots.pairing } }
act paired d = record d { tasks = taking false ∷ d.tasks }
act (pass secs) d = record d { slots = record d.slots { now = d.slots.now + secs } }
act (step_task n a) d =
    let (s, ts) = step_at n a d.tasks d.slots in record { slots = s; tasks = ts }

unfoldable pub run : List Action → Windows → Windows
run [] d = d
run (x ∷ xs) d = run xs (act x d)

-- the daemon before its first call
abbrev pub no_windows : ℕ → Windows
no_windows now = record {
  slots = record { pairing = none; pairing_runtime = none; now = now };
  tasks = [];
}
