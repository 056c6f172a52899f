-- ===== src/Patterns/Plugin.antt =====
-- engine/patterns/base.py and models/pattern.py: what a plugin declares about itself.
use motoro.Prelude.{
  ℕ, zero, suc, refl, String, List, PyEq, ◌==◌, eq_number, Dict, Bool, true, ◌≡◌, ◌↔◌, ap, sym, ◌∙◌,
}

pub data Category : Type 0 where
  execution safety coordination knowledge quality routing resolution : Category

pub data HookPoint : Type 0 where
  pre_sense post_sense pre_reason post_reason pre_plan post_plan pre_act post_act : HookPoint
  loop_control on_completion on_error : HookPoint

-- The values of the enumerations, by which Python compares them.
abbrev pub category_index : Category → ℕ
category_index execution = 0
category_index safety = 1
category_index coordination = 2
category_index knowledge = 3
category_index quality = 4
category_index routing = 5
category_index resolution = 6

abbrev pub point_index : HookPoint → ℕ
point_index pre_sense = 0
point_index post_sense = 1
point_index pre_reason = 2
point_index post_reason = 3
point_index pre_plan = 4
point_index post_plan = 5
point_index pre_act = 6
point_index post_act = 7
point_index loop_control = 8
point_index on_completion = 9
point_index on_error = 10

category_of : ℕ → Category
category_of zero = execution
category_of (suc zero) = safety
category_of (suc (suc zero)) = coordination
category_of (suc (suc (suc zero))) = knowledge
category_of (suc (suc (suc (suc zero)))) = quality
category_of (suc (suc (suc (suc (suc zero))))) = routing
category_of (suc (suc (suc (suc (suc (suc _)))))) = resolution

category_of-index : (c : Category) → category_of (category_index c) ≡ c
unfolding category_of
category_of-index execution = refl
category_of-index _ = refl

pub category_iff : (a b : Category) → ((category_index a == category_index b) ≡ true) ↔ (a ≡ b)
category_iff a b = (
  λ h.
      sym (category_of-index a)
      ∙ ap category_of ((eq_number.equal_iff _ _).0 h)
      ∙ category_of-index b,
  λ h. (eq_number.equal_iff _ _).1 (ap category_index h),
)

instance abbrev pub eq_category : PyEq Category
eq_category = record {
  equals = λ a b. category_index a == category_index b;
  equal_iff = category_iff;
}

point_of : ℕ → HookPoint
point_of zero = pre_sense
point_of (suc zero) = post_sense
point_of (suc (suc zero)) = pre_reason
point_of (suc (suc (suc zero))) = post_reason
point_of (suc (suc (suc (suc zero)))) = pre_plan
point_of (suc (suc (suc (suc (suc zero))))) = post_plan
point_of (suc (suc (suc (suc (suc (suc zero)))))) = pre_act
point_of (suc (suc (suc (suc (suc (suc (suc zero))))))) = post_act
point_of (suc (suc (suc (suc (suc (suc (suc (suc zero)))))))) = loop_control
point_of (suc (suc (suc (suc (suc (suc (suc (suc (suc zero))))))))) = on_completion
point_of (suc (suc (suc (suc (suc (suc (suc (suc (suc (suc _)))))))))) = on_error

point_of-index : (p : HookPoint) → point_of (point_index p) ≡ p
unfolding point_of
point_of-index pre_sense = refl
point_of-index _ = refl

pub point_iff : (a b : HookPoint) → ((point_index a == point_index b) ≡ true) ↔ (a ≡ b)
point_iff a b = (
  λ h. sym (point_of-index a) ∙ ap point_of ((eq_number.equal_iff _ _).0 h) ∙ point_of-index b,
  λ h. (eq_number.equal_iff _ _).1 (ap point_index h),
)

instance abbrev pub eq_point : PyEq HookPoint
eq_point = record { equals = λ a b. point_index a == point_index b; equal_iff = point_iff }

-- A hook function is opaque here: a number stands for its identity.
abbrev pub Callable : Type 0
Callable = ℕ

pub record Plugin : Type 0 where
  pub slug : String
  pub category : Category
  pub dependencies : List String
  pub requires_multi_agent : Bool
  pub conflicts_with : List String
  pub consumes_skills : Bool
  pub get_hooks : Dict HookPoint (List Callable)
