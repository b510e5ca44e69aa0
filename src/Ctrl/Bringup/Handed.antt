-- ===== src/Ctrl/Bringup/Handed.antt =====
-- What mm_halow_init hands to morselib.
use mm_halow_driver.Base.{ℕ, ◌≡◌, true, false}
use mm_halow_driver.Heap.{Heap}
use mm_halow_driver.Ctrl.{Errno, is_ok}
use mm_halow_driver.Ctrl.Radio.{What, RadioConfig}
use mm_halow_driver.Ctrl.Radio.Apply.{Settles, is_given, wanted}
use mm_halow_driver.Ctrl.Bringup.{Below, Driver}

module _ {M : Type 0} (w : Below M) (seen : What → M → ℕ) (settles : Settles w.mmwlan seen)
    (registers : (a : What) (m : M) → seen a (w.register_handlers m) ≡ seen a m) where
  -- What a start with the settings `c`, over morselib's state `m`, leaves. On success morselib is initialised and has each setting that the
  -- driver keeps; on failure it was not called. The settings are kept either way.
  pub record Handed (c : RadioConfig) (m : M) (r : Errno × Driver M) : Type 0 where
    pub kept : r.1.config ≡ c
    pub started : is_ok r.0 ≡ true → r.1.initted ≡ true
    pub given :
        is_ok r.0 ≡ true
        → (a : What) → is_given a ≡ true
        → seen a r.1.below ≡ wanted w.mmwlan seen settles a c (w.mmwlan_init m)
    pub refused : is_ok r.0 ≡ false → r.1.below ≡ m
