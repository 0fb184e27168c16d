-- ===== src/Gate/Stages.antt =====
-- How steps of the filter follow one another: the laws of `then_do`.
use object_storage_proxy.Base.{◌≡◌, refl, sym, Bool, true, false, if◌then◌else◌}
use object_storage_proxy.Gate.World.{World, Refusal, Stage, next, stop, M, then_do}

module _ {C : Type 0} where
  pub then_do_assoc :
      {A B D : Type 0} (s : Stage C A) (f : A → M C B) (g : B → M C D)
      → then_do (then_do s f) g ≡ then_do s (λ a w. then_do (f a w) g)
  unfolding then_do
  then_do_assoc (next a w) f g = refl
  then_do_assoc (stop r w) f g = refl

  pub then_do_pure :
      {A B D : Type 0} (s : Stage C A) (f : A → B) (g : B → M C D)
      → then_do (then_do s (λ a w. next (f a) w)) g ≡ then_do s (λ a. g (f a))
  unfolding then_do
  then_do_pure (next a w) f g = refl
  then_do_pure (stop r w) f g = refl

  pub then_do_unit : (s : Stage C (Unit {0})) → then_do s (λ a w. next a w) ≡ s
  unfolding then_do
  then_do_unit (next a w) = refl
  then_do_unit (stop r w) = refl

  pub then_do_cong :
      {A B : Type 0} (s : Stage C A) (f g : A → M C B)
      → ((a : A) (w : World C) → f a w ≡ g a w)
      → then_do s f ≡ then_do s g
  unfolding then_do
  then_do_cong (next a w) f g same = same a w
  then_do_cong (stop r w) f g same = refl

  pub then_do_assoc₂ :
      {A B D E : Type 0} (s : Stage C A) (m : A → M C B) (f : B → M C D) (g : D → M C E)
      → then_do (then_do s (λ a w. then_do (m a w) f)) g
        ≡ then_do s (λ a w. then_do (m a w) (λ b w'. then_do (f b w') g))
  unfolding then_do
  then_do_assoc₂ (next a w) m f g = then_do_assoc (m a w) f g
  then_do_assoc₂ (stop r w) m f g = refl

  pub then_do_if :
      {A B : Type 0} (b : Bool) (x y : M C A) (f : A → M C B) (m n : M C B) (w : World C)
      → then_do (x w) f ≡ m w
      → then_do (y w) f ≡ n w
      → if◌then◌else◌ {A = M C B} b m n w ≡ then_do (if◌then◌else◌ {A = M C A} b x y w) f
  then_do_if true x y f m n w ex ey = sym ex
  then_do_if false x y f m n w ex ey = sym ey

  -- As `then_do_cong`, where the second step may use that the first has come to its end.
  pub then_do_cong_next :
      {A B : Type 0} (s : Stage C A) (f g : A → M C B)
      → ((a : A) (w : World C) → s ≡ next a w → f a w ≡ g a w)
      → then_do s f ≡ then_do s g
  unfolding then_do
  then_do_cong_next (next a w) f g same = same a w refl
  then_do_cong_next (stop r w) f g same = refl

  pub then_do_pure-next :
      {A B : Type 0} (s : Stage C A) (f : A → B) (b : B) (w : World C)
      → then_do s (λ a w'. next (f a) w') ≡ next b w
      → (a : A) × (s ≡ next a w) × (f a ≡ b)
  unfolding then_do
  then_do_pure-next (next a w') f b w h = (a, cc, cc)
  then_do_pure-next (stop r w') f b w h = cc

  pub then_do_pure-stop :
      {A B : Type 0} (s : Stage C A) (f : A → B) (r : Refusal) (w : World C)
      → then_do s (λ a w'. next (f a) w') ≡ stop r w
      → s ≡ stop r w
  unfolding then_do
  then_do_pure-stop (next a w') f r w h = cc
  then_do_pure-stop (stop r' w') f r w h = cc
