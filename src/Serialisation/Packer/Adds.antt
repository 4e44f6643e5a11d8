-- ===== src/Serialisation/Packer/Adds.antt =====
-- The calls that fill a message, in turn.
use se_scope_target.Prelude.{
  ℕ, ◌+◌, ◌≤◌, ◌≡◌, refl, ap, sym, ◌∙◌, List, [], ◌∷◌, ◌++◌, map, some, arith, length, append-nil,
  append_assoc, length-append,
}
use se_scope_target.ScopeTypes.{TriggeredValues}
use se_scope_target.Control.Pack.{
  PackerCall, add_channel, add_trigger, add_timestamp, add_time_increment,
}
use se_scope_target.Serialisation.Packer.{Packer, add, add_all}

module _ {F B I : Type 0} where
  add_all-append :
      (p : Packer F B I) (xs ys : List (PackerCall F B I (List ℕ)))
      → add_all p (xs ++ ys) ≡ add_all (add_all p xs) ys
  unfolding add_all
  add_all-append p [] ys = refl
  add_all-append p (x ∷ xs) ys = add_all-append (add p x) xs ys

  add_all_channels :
      (p : Packer F B I) (cs : List (ℕ × B))
      → length p.channels + length cs ≤ p.max_number_of_channels
      → add_all p (map (λ (c : ℕ × B). add_channel c.0 c.1) cs)
        ≡ record p { channels = p.channels ++ cs }
  unfolding add_all add
  add_all_channels p [] h = ap (λ l. record p { channels = l }) (sym (append-nil p.channels))
  add_all_channels p (c ∷ cs) h =
      let p' = record p { channels = p.channels ++ ((c.0, c.1) ∷ []) } in
      let added : add p (add_channel c.0 c.1) ≡ p' = ground arith in
      ap (λ q. add_all q (map (λ (c : ℕ × B). add_channel c.0 c.1) cs)) added
      ∙ (add_all_channels p' cs (omega (arith, length-append p.channels ((c.0, c.1) ∷ [])))
          ∙ ap (λ l. record p { channels = l }) (append_assoc p.channels ((c.0, c.1) ∷ []) cs))

  pub add_all_none : (p : Packer F B I) → add_all p [] ≡ p
  unfolding add_all
  add_all_none p = refl

  -- An empty message takes all the channels, if it has room for them, and what is added behind them.
  pub add_all_message :
      (p : Packer F B I) (cs : List (ℕ × B)) (t : TriggeredValues) (i : I) (n : ℕ)
      → p.channels ≡ []
      → length cs ≤ p.max_number_of_channels
      → add_all p (
          map (λ (c : ℕ × B). add_channel c.0 c.1) cs
          ++ (add_trigger t ∷ add_timestamp i ∷ add_time_increment n ∷ []))
        ≡ record p { channels = cs; trigger = t; timestamp = some i; time_increment = n }
  unfolding add_all add
  add_all_message p cs t i n e h =
      add_all-append p (map (λ (c : ℕ × B). add_channel c.0 c.1) cs)
        (add_trigger t ∷ add_timestamp i ∷ add_time_increment n ∷ [])
      ∙ (ap (λ q. add_all q (add_trigger t ∷ add_timestamp i ∷ add_time_increment n ∷ []))
            (add_all_channels p cs (omega (arith, h, ap length e)))
          ∙ ap
              (λ l. record p {
                channels = l ++ cs;
                trigger = t;
                timestamp = some i;
                time_increment = n;
              })
              e)
