-- ===== src/Store/Settings.antt =====
-- internal/store/settings.go
use xdev.Prelude.{[], ◌∷◌, ◌++◌, none, some, if◌then◌else◌, Text, text_eq, find, any}
use xdev.Prelude.Result.{ok}
use xdev.Store.Schema.{Db, Write}
use xdev.Store.Table.{update_where}

-- "" where the key is not set.
unfoldable pub get_setting : Text → Db → Text
unfolding find
get_setting key db = elim (find (λ s. text_eq s.0 key) db.settings) [ none ↦ [] | some s ↦ s.1 ]

unfoldable pub set_setting : Text → Text → Write (Unit {0})
unfolding update_where any
set_setting key value db = (
  ok tt,
  record db {
    settings =
        if any (λ s. text_eq s.0 key) db.settings
        then update_where (λ s. text_eq s.0 key) (λ s. (s.0, value)) db.settings
        else db.settings ++ (key, value) ∷ [];
  },
)
