-- ===== src/Handler/Signals/Maintenance.antt =====
-- From the samples of a query to the instances that are taken out of service.
use locate.Prelude.{String, Bool, Option, none, some, List, [], ◌∷◌, ◌==◌, if◌then◌else◌}
use locate.Float.{Float64}
use locate.Tracker.{Tracker}
use locate.Handler.Signals.{Sample, label_of}

abbrev or_else : Option Bool → Option Bool → Option Bool
or_else none o = o
or_else (some b) o = some b

-- What the last sample with a label says.
unfoldable pub last_signal : String → (Float64 → Bool) → String → List Sample → Option Bool
unfolding label_of
last_signal label_name f label [] = none
last_signal label_name f label (elem ∷ rest) =
    or_else (last_signal label_name f label rest)
      (if label_of label_name elem == label then some (f elem.value) else none)
