-- ===== src/Logging/Capture/Laws.antt =====
-- The message that a Capture logs.
use Prim.Native.Char.{code}
use Prim.Native.String.{String}
use libni.Base.{
  ◌≢◌, ◌≤◌, ◌<◌, subst, zero, arith, Option, leb, leb-true, leb-false, get_or, ℕ, suc, ◌≡◌, refl,
  sym, ap, ◌∙◌, List, [], ◌∷◌, ◌++◌, append_assoc, some, none, Bool-cases, inl, inr,
}
use libni.Logging.{
  LogSeverity, debug, info, notice, warning, error, critical, index, at_least, short_name,
  LogMessage,
}
use libni.Logging.Capture.{Stamp, make, write, destroy, write_all}

pub concat : List (List ℕ) → List ℕ
concat [] = []
concat (t ∷ ts) = t ++ concat ts

writes :
    (ts : List (List ℕ)) (l : ℕ) (m : LogMessage)
    → destroy (write_all ts (record { m_logger = l; m_message = some m }))
      ≡ some (record m { writer = m.writer ++ (concat ts ++ (10 ∷ [])) })
unfolding write_all write destroy concat
writes [] l m = refl
writes (t ∷ ts) l m =
    writes ts l (record m { writer = m.writer ++ t })
    ∙ ap (λ (w : List ℕ). some (record m { writer = w }))
        (append_assoc m.writer t (concat ts ++ (10 ∷ []))
          ∙ ap (λ (w : List ℕ). m.writer ++ w) (sym (append_assoc t (concat ts) (10 ∷ []))))

silent :
    (ts : List (List ℕ)) (l : ℕ)
    → destroy (write_all ts (record { m_logger = l; m_message = none })) ≡ none
unfolding write_all write destroy
silent [] l = refl
silent (t ∷ ts) l = silent ts l

-- The code points of a text.
abbrev codes : String → List ℕ
codes String.[] = []
codes (String.◌∷◌ c s) = code c ∷ codes s

-- How severe a severity is, and what it is called.
unfoldable pub rank : LogSeverity → ℕ
rank debug = 0
rank info = 1
rank notice = 2
rank warning = 3
rank error = 4
rank critical = 5

unfoldable pub name : LogSeverity → String
name debug = "Debug"
name info = "Info"
name notice = "Notice"
name warning = "Warning"
name error = "Error"
name critical = "Critical"

-- The first letter of its name.
unfoldable pub initial : LogSeverity → ℕ
unfolding name
initial v = get_or (codes (name v)) 0 0

short_name-initial : (v : LogSeverity) → short_name v ≡ initial v
unfolding short_name initial
short_name-initial debug = refl
short_name-initial info = refl
short_name-initial notice = refl
short_name-initial warning = refl
short_name-initial error = refl
short_name-initial critical = refl

index-rank : (v : LogSeverity) → index v ≡ rank v
unfolding index rank
index-rank debug = refl
index-rank info = refl
index-rank notice = refl
index-rank warning = refl
index-rank error = refl
index-rank critical = refl

at_least-rank :
    (severity level : LogSeverity) → at_least severity level ≡ leb (rank level) (rank severity)
unfolding at_least
at_least-rank severity level = rw (index-rank severity, index-rank level) refl

-- The line of a message: the time, the initial of the severity, the place in brackets, and what was
-- written, in order.
abbrev pub line : Stamp → LogSeverity → List (List ℕ) → List ℕ
line stamp severity ts =
    (stamp.time ++ (codes " " ++ (initial severity ∷ codes " [")) ++ stamp.place ++ codes "] ")
    ++ (concat ts ++ codes "\n")

-- What a Capture may log.
pub data Captured (l : ℕ) (level severity : LogSeverity) (stamp : Stamp) (ts : List (List ℕ))
    : Option LogMessage → Type 0 where
  logged :
      l ≢ 0
      → rank level ≤ rank severity
      → Captured l level severity stamp ts
          (some (record { logger = l; severity = severity; writer = line stamp severity ts }))
  no_logger : l ≡ 0 → Captured l level severity stamp ts none
  not_severe : rank severity < rank level → Captured l level severity stamp ts none

-- A Capture logs one message when its logger is not null and its severity is not less severe than
-- the level of the logger, and none otherwise. The message has that severity and that logger, and
-- its text is the time, a space, the first letter of the name of the severity, a space, the place
-- in brackets, a space, what was written to the Capture in order, and the end of the line.
pub capture_logs :
    (l : ℕ) (level severity : LogSeverity) (stamp : Stamp) (ts : List (List ℕ))
    → Captured l level severity stamp ts (destroy (write_all ts (make l level severity stamp)))
unfolding make
capture_logs zero level severity stamp ts =
    subst (Captured 0 level severity stamp ts) (sym (silent ts 0)) (no_logger refl)
capture_logs (suc l) level severity stamp ts = elim (Bool-cases (at_least severity level)) [
  | inl e ↦
      rw (e, writes ts (suc l) _, short_name-initial severity)
        (logged (λ z. omega arith)
          (leb-true (rank level) (rank severity) (sym (at_least-rank severity level) ∙ e)))
  | inr e ↦
      rw (e, silent ts (suc l))
        (not_severe
          (leb-false (rank level) (rank severity) (sym (at_least-rank severity level) ∙ e)))
]
