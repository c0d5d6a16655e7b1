-- ===== src/Observers/Notify.antt =====
-- What the observers of the weather get.
use notes_coding.Base.{
  ℕ, ◌≡◌, ◌≢◌, inl, inr, refl, sym, ◌∙◌, ap, arith, true, false, List, [], ◌∷◌, ◌++◌, map, ◌==◌,
  Bool-cases, update_same, update_other, has,
}
use mathlib.Core.List.{append_assoc, append-nil}
use notes_coding.Observers.{
  Display, current_conditions, Weather, update_display, notify, notify_observers, set_measurements,
}

-- The displays and lines after the observers `os` got the measurements of `w`.
module _ {F : Type 0} where
  pub record Notified (w g : Weather F) (temp humi : F) (os : List ℕ) : Type 0 where
    pub shown :
        (o : ℕ) → has o os ≡ true → g.displays o ≡ record { temprature = temp; humidity = humi }
    pub kept : (o : ℕ) → has o os ≡ false → g.displays o ≡ w.displays o
    pub printed : g.lines ≡ w.lines ++ map (λ o. current_conditions o temp humi) os
    pub observers : g.observers ≡ w.observers

  notify-Notified :
      (os : List ℕ) (w : Weather F) → Notified w (notify os w) w.temprature w.humidity os
  unfolding notify update_display
  notify-Notified [] w = record {
    shown = λ o h. cc;
    kept = λ o h. refl;
    printed = sym (append-nil w.lines);
    observers = refl;
  }
  notify-Notified (x ∷ os) w =
      let new : Display F = record { temprature = w.temprature; humidity = w.humidity } in
      let one : Weather F = update_display x w.temprature w.humidity w.pressure w in
      let r : Notified one (notify os one) w.temprature w.humidity os = notify-Notified os one in
      record {
        shown = λ o h. elim (Bool-cases (has o os)) [
          | inl later ↦ r.shown o later
          | inr off ↦ elim (Bool-cases (x == o)) [
            | inl here ↦
                let same : x ≡ o = ground arith in
                r.kept o off ∙ ap one.displays (sym same) ∙ update_same w.displays x new
            | inr other ↦ let no : false ≡ true = rw (other, off) at h in absurd cc
          ]
        ];
        kept = λ o h. elim (Bool-cases (x == o)) [
          | inl here ↦ let no : true ≡ false = rw here at h in absurd cc
          | inr other ↦
              let off : has o os ≡ false = rw other at h in
              let apart : x ≢ o = ground arith in
              r.kept o off ∙ update_other w.displays x o new apart
        ];
        printed =
            r.printed ∙ append_assoc w.lines (current_conditions x w.temprature w.humidity ∷ []) _;
        observers = r.observers;
      }

  -- New measurements are shown by every registered observer, each of which prints them once for each
  -- time that it is registered, in the order of registration; no other display changes.
  pub set_measurements-Notified :
      (temp humi pres : F) (w : Weather F)
      → Notified w (set_measurements temp humi pres w) temp humi w.observers
  unfolding set_measurements notify_observers
  set_measurements-Notified temp humi pres w =
      let new : Weather F = record w { temprature = temp; humidity = humi; pressure = pres } in
      let r : Notified new (notify w.observers new) temp humi w.observers =
        notify-Notified w.observers new in
      record { shown = r.shown; kept = r.kept; printed = r.printed; observers = r.observers }
