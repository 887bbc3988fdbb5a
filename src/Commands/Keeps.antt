-- ===== src/Commands/Keeps.antt =====
-- crates/gamestore-datamodel/src: rules by which a command keeps a store consistent.
pub mod Strings
pub mod Collections
pub mod SortedSets
pub mod Registry
use game_store.Prelude.{Bool, true, false, Option, none, some, if◌then◌else◌}
use game_store.Engine.Error.{Result, ok, err}
use game_store.Engine.Interface.{IsReliable}
use game_store.Protocol.Frame.{Frame}
use game_store.Store.Exec.{Exec}
use game_store.Store.Base.{Host, Store, now_ms}
use game_store.Store.View.{IsConsistent}
use game_store.Commands.Base.{Reply, reply, on_result, on_ok, respond}

module _ ⦃h : Host⦄ (laws : IsReliable h.engine) where
  -- A consistent store stays consistent.
  abbrev pub Keeps : Reply (Store h) → Type 0
  Keeps m = (s : Store h) → IsConsistent laws s → IsConsistent laws (m s).1

  abbrev pub KeepsExec {ℓ} : {A : Type ℓ} → Exec (Store h) A → Type 0
  KeepsExec m = (s : Store h) → IsConsistent laws s → IsConsistent laws (m s).1

  pub reply-Keeps : (f : Frame) → Keeps (reply f)
  reply-Keeps f s c = c

  pub if-Keeps : (b : Bool) (m n : Reply (Store h)) → Keeps m → Keeps n → Keeps (if b then m else n)
  if-Keeps true m n k l = k
  if-Keeps false m n k l = l

  module _ {ℓ} {A : Type ℓ} where
    pub option-Keeps :
        (o : Option A) (m : Reply (Store h)) (f : A → Reply (Store h))
        → Keeps m
        → ((a : A) → Keeps (f a))
        → Keeps (elim o [ none ↦ m | some a ↦ f a ])
    option-Keeps none m f k l = k
    option-Keeps (some a) m f k l = l a

    on_result-IsConsistent :
        (r : Result A) (f : A → Reply (Store h)) (s : Store h)
        → ((a : A) → Keeps (f a))
        → IsConsistent laws s
        → IsConsistent laws (on_result r f s).1
    unfolding on_result
    on_result-IsConsistent (ok a) f s k c = k a s c
    on_result-IsConsistent (err e) f s k c = c

    pub on_ok-Keeps :
        (m : Exec (Store h) A) (f : A → Reply (Store h))
        → KeepsExec m
        → ((a : A) → Keeps (f a))
        → Keeps (on_ok m f)
    on_ok-Keeps m f first next s c = on_result-IsConsistent (m s).0 f (m s).1 next (first s c)

    pub respond-Keeps : (m : Exec (Store h) A) (f : A → Frame) → KeepsExec m → Keeps (respond m f)
    respond-Keeps m f first = on_ok-Keeps m (λ a s. (f a, s)) first (λ a s c. c)

  pub now_ms-Keeps : KeepsExec now_ms
  unfolding now_ms
  now_ms-Keeps s c = c
