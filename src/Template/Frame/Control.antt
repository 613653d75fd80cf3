-- ===== src/Template/Frame/Control.antt =====
-- The branches and loops of a template (pugjs/tpl_exec.go) keep what the single changes keep.
use pugtemplate.Common.{
  Text, lit, ℕ, zero, suc, Bool, true, false, List, [], ◌∷◌, ◌++◌, Option, none, some,
}
use pugtemplate.Template.Syntax.{Pipeline}
use pugtemplate.Template.State.{Store, Outcome, M, modify}
use pugtemplate.Template.Reflection.{Reflection, Ranged, Printed}
use pugtemplate.Template.Control.{
  max_rounds, write, print_as, print_value, print_undeclared, set_range_vars, push_all, each_index,
  member_round, each_member, each_key, each_received, while_round, while_true, range_over, recover,
  try_catch, branch, if_true,
}
use pugtemplate.Template.Frame.{
  After, Frame, Keeps, after-After, bind-Keeps, pure-Keeps, panic-Keeps, gets-Keeps,
  with_world-Keeps, set_var_value-Keeps, push-Keeps,
}

module _ {V W C : Type 0} {r : Reflection V W C} (F : Frame r) (s : ℕ) where
  pub write-Keeps : (t : Text) → Keeps F s (write r t)
  unfolding write modify
  write-Keeps t = record { run = λ st p. F.outputs st t }

  print_as-Keeps : (p : Pipeline C) (v : V) (o : Printed) → Keeps F s (print_as r p v o)
  print_as-Keeps p v Printed.refused = panic-Keeps F _
  print_as-Keeps p v Printed.missing =
      bind-Keeps F (gets-Keeps F λ st. r.print_missing p st.world v) λ t. write-Keeps _
  print_as-Keeps p v (Printed.text t) = write-Keeps t

  pub print_undeclared-Keeps :
      (p : Pipeline C) (xs : List Text) (v : V) → Keeps F s (print_undeclared r p xs v)
  unfolding print_value
  print_undeclared-Keeps p [] v =
      bind-Keeps F (gets-Keeps F λ st. r.print st.world v) (print_as-Keeps p v)
  print_undeclared-Keeps p (x ∷ xs) v = pure-Keeps F tt

  pub set_range_vars-Keeps :
      (xs : List Text) (index elem : V) → Keeps F s (set_range_vars r s xs index elem)
  set_range_vars-Keeps [] index elem = pure-Keeps F tt
  set_range_vars-Keeps (x ∷ []) index elem = set_var_value-Keeps F x elem
  set_range_vars-Keeps (x ∷ y ∷ ys) index elem =
      bind-Keeps F (set_var_value-Keeps F x index) λ u. set_var_value-Keeps F y elem

  pub push_all-Keeps : (xs : List Text) → Keeps F s (push_all r s xs)
  push_all-Keeps [] = pure-Keeps F tt
  push_all-Keeps (x ∷ xs) = bind-Keeps F (push-Keeps F x r.zero) λ u. push_all-Keeps xs

  module _ (body : V → V → M V W (Unit {0}))
      (bodies : (index elem : V) → Keeps F s (body index elem)) where
    each_index-Keeps : (left i : ℕ) (get : ℕ → W → V) → Keeps F s (each_index r body left i get)
    unfolding each_index
    each_index-Keeps zero i get = pure-Keeps F tt
    each_index-Keeps (suc left) i get =
        bind-Keeps F (gets-Keeps F λ st. get i st.world)
          λ v. bind-Keeps F (bodies (r.int i) v) λ u. each_index-Keeps left (suc i) get

    member_round-Keeps :
        (k : Text) (member : Text → W → V × W) (b : Bool)
        → Keeps F s (member_round r body k member b)
    member_round-Keeps k member false = pure-Keeps F tt
    member_round-Keeps k member true =
        bind-Keeps F (with_world-Keeps F (member k)) (bodies (r.string k))

    each_member-Keeps :
        (ks : List Text) (has : Text → W → Bool × W) (member : Text → W → V × W)
        → Keeps F s (each_member r body ks has member)
    unfolding each_member
    each_member-Keeps [] has member = pure-Keeps F tt
    each_member-Keeps (k ∷ ks) has member =
        bind-Keeps F (bind-Keeps F (with_world-Keeps F (has k)) (member_round-Keeps k member))
          λ u. each_member-Keeps ks has member

    each_key-Keeps : (ks : List V) (get : V → W → V) → Keeps F s (each_key r body ks get)
    unfolding each_key
    each_key-Keeps [] get = pure-Keeps F tt
    each_key-Keeps (k ∷ ks) get =
        bind-Keeps F (bind-Keeps F (gets-Keeps F λ st. get k st.world) (bodies k))
          λ u. each_key-Keeps ks get

    each_received-Keeps : (i : ℕ) (vs : List V) → Keeps F s (each_received r body i vs)
    unfolding each_received
    each_received-Keeps i [] = pure-Keeps F tt
    each_received-Keeps i (v ∷ vs) =
        bind-Keeps F (bodies (r.int i) v) λ u. each_received-Keeps (suc i) vs

    while_round-Keeps :
        (b : Option Bool) (again : M V W (Unit {0}))
        → Keeps F s again
        → Keeps F s (while_round r body b again)
    while_round-Keeps none again h = panic-Keeps F _
    while_round-Keeps (some false) again h = pure-Keeps F tt
    while_round-Keeps (some true) again h = h

    while_true-Keeps :
        (left i : ℕ) (condition : M V W V) (v : V)
        → Keeps F s condition
        → Keeps F s (while_true r body left i condition v)
    unfolding while_true
    while_true-Keeps zero i condition v h = panic-Keeps F _
    while_true-Keeps (suc left) i condition v h = while_round-Keeps (r.bool_of v) _ (
        bind-Keeps F (bodies (r.int i) v)
          λ u. bind-Keeps F h λ w. while_true-Keeps left (suc i) condition w h)

    pub range_over-Keeps :
        (condition : M V W V) (orelse : M V W (Unit {0})) (x : Ranged V W)
        → Keeps F s condition
        → Keeps F s orelse
        → Keeps F s (range_over r body condition orelse x)
    unfolding range_over
    range_over-Keeps condition orelse Ranged.invalid h k = k
    range_over-Keeps condition orelse (Ranged.slice zero get) h k = k
    range_over-Keeps condition orelse (Ranged.slice (suc n) get) h k =
        each_index-Keeps (suc n) 0 get
    range_over-Keeps condition orelse (Ranged.ordered x xs has member) h k =
        each_member-Keeps (x ∷ xs) has member
    range_over-Keeps condition orelse (Ranged.keys [] get) h k = k
    range_over-Keeps condition orelse (Ranged.keys (x ∷ xs) get) h k = each_key-Keeps (x ∷ xs) get
    range_over-Keeps condition orelse (Ranged.channel []) h k = k
    range_over-Keeps condition orelse (Ranged.channel (x ∷ xs)) h k = each_received-Keeps 0 (x ∷ xs)
    range_over-Keeps condition orelse (Ranged.bool b) h k =
        while_true-Keeps max_rounds 0 condition b h
    range_over-Keeps condition orelse Ranged.other h k = panic-Keeps F _

  recover-After :
      (x : Text) (handler : M V W (Unit {0})) (st : Store V W) (o : Outcome V W (Unit {0}))
      → F.P s st
      → Keeps F s handler
      → After F.U F.R st o
      → After F.U F.R st (recover r s x handler o)
  recover-After x handler st (Outcome.returned st' u) p h k = k
  recover-After [] handler st (Outcome.panicked st' e) p h k =
      after-After F st st' _ k (h.run st' (F.keep s st st' p k))
  recover-After (c ∷ x) handler st (Outcome.panicked st' e) p h k = after-After F st st' _ k (
      (bind-Keeps F (set_var_value-Keeps F (lit "$" ++ (c ∷ x)) (r.exception e)) λ u. h).run st'
        (F.keep s st st' p k))
  recover-After [] handler st Outcome.out_of_fuel p h k = k
  recover-After (c ∷ x) handler st Outcome.out_of_fuel p h k = k

  pub try_catch-Keeps :
      (x : Text) (body handler : M V W (Unit {0}))
      → Keeps F s body
      → Keeps F s handler
      → Keeps F s (try_catch r s x body handler)
  unfolding try_catch
  try_catch-Keeps x body handler h k = record {
    run = λ st p. recover-After x handler st (body st) p k (h.run st p);
  }

  branch-Keeps :
      (b : Option Bool) (m n : M V W (Unit {0}))
      → Keeps F s m
      → Keeps F s n
      → Keeps F s (branch r b m n)
  branch-Keeps none m n h k = panic-Keeps F _
  branch-Keeps (some true) m n h k = h
  branch-Keeps (some false) m n h k = k

  pub if_true-Keeps :
      (v : V) (m n : M V W (Unit {0})) → Keeps F s m → Keeps F s n → Keeps F s (if_true r v m n)
  unfolding if_true
  if_true-Keeps v m n h k =
      bind-Keeps F (gets-Keeps F λ st. r.is_true st.world v) λ t. branch-Keeps t m n h k
