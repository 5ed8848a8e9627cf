-- ===== src/Examples/Contexts.antt =====
-- A context with service 100 for key 1 and service 200 for key 2; two calls for key 2 overlapped.
use executors.Base.{ℕ, ◌≡◌, refl, inl, inr, arith}
use executors.Services.{find, find_until, System, creates, finds_late, adopts, Reach, here, next}
use executors.Services.Registry.{one_service}

record Scene : Type 0 where
  system : System
  reached : Reach 2 system

-- Both calls see that key 2 has no service; the second one to finish takes the service of the first.
abbrev overlapped : Scene
unfolding find find_until
overlapped = record {
  system = _;
  reached =
      next
        (next
          (next
            (next
              (next (next here (creates 0 1 (omega arith) refl refl))
                (adopts 0 100 (omega arith) refl refl (ground arith) tt))
              (creates 0 2 (omega arith) refl refl))
            (creates 1 2 (omega arith) refl refl))
          (adopts 1 200 (omega arith) refl refl (ground arith) (ground arith)))
        (finds_late 0 (omega arith) refl refl);
}

one_service_example : ◌≡◌ {A = ℕ} 200 200
unfolding overlapped
one_service_example =
    one_service overlapped.system 2 200 200 overlapped.reached (inl (refl, refl))
      (inr (inl (refl, refl)))
