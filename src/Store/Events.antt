-- ===== src/Store/Events.antt =====
-- internal/store/events.go: the audit log. A project or an app that is NULL is none.
use xdev.Prelude.{
  ℕ, suc, Bool, true, false, not, List, [], ◌∷◌, ◌++◌, map, Option, none, some, ltb, leb, ◌==◌,
  if◌then◌else◌, length, take, Text, filter,
}
use xdev.Store.Table.{order_by}

pub record EventRow : Type 0 where
  pub id : ℕ
  pub project_id : Option ℕ
  pub app_id : Option ℕ
  pub ts : ℕ
  pub level : Text
  pub message : Text

pub record Event : Type 0 where
  pub ts : ℕ
  pub level : Text
  pub message : Text

-- The table and its AUTOINCREMENT counter.
pub record Log : Type 0 where
  pub rows : List EventRow
  pub last : ℕ

unfoldable pub or_null : ℕ → Option ℕ
or_null id = if ltb 0 id then some id else none

unfoldable pub add_event : ℕ → ℕ → ℕ → Text → Text → Log → Log
unfolding or_null
add_event now project app level message l = record {
  rows =
      l.rows
      ++ record {
        id = suc l.last;
        project_id = or_null project;
        app_id = or_null app;
        ts = now;
        level = level;
        message = message;
      }
        ∷ [];
  last = suc l.last;
}

-- ORDER BY id DESC
unfoldable pub later : EventRow → EventRow → Bool
later a b = leb b.id a.id

unfoldable pub scan_event : EventRow → Event
scan_event r = record { ts = r.ts; level = r.level; message = r.message }

unfoldable pub is_of : ℕ → Option ℕ → Bool
is_of project none = false
is_of project (some p) = p == project

unfoldable pub list_events : ℕ → Log → List Event
unfolding order_by later scan_event
list_events limit l = map scan_event (take limit (order_by later l.rows))

unfoldable pub list_events_by_project : ℕ → ℕ → Log → List Event
unfolding order_by later scan_event is_of filter
list_events_by_project project limit l =
    map scan_event (take limit (order_by later (filter (λ r. is_of project r.project_id) l.rows)))

-- Every row, or those of one project; the number of rows that went comes back.
unfoldable pub clearable_event : ℕ → EventRow → Bool
unfolding is_of
clearable_event project r = if ltb 0 project then is_of project r.project_id else true

unfoldable pub clear_events : ℕ → Log → ℕ × Log
unfolding clearable_event filter
clear_events project l = (
  length (filter (clearable_event project) l.rows),
  record l { rows = filter (λ r. not (clearable_event project r)) l.rows },
)
