-- ===== src/Agent/Control/Answers/Seen.antt =====
-- The manager's steps, as one waiting request sees them.
use claude_agent_sdk_go.Base.{
  String, ◌≡◌, refl, ◌∙◌, ap, sym, subst, Bool, true, false, ◌||◌, Option, none, some, List, [],
  ◌∷◌, contains, str_eq, string_eq, eq_iff, eq_refl, arith, if◌then◌else◌, Bool-cases, inl, inr,
  if_true, if_false,
}
use claude_agent_sdk_go.Base.Assoc.{get, put, get-put, get-put_self}
use claude_agent_sdk_go.Agent.Control.{
  ControlResult, Channel, try_send, close_channel, Manager, forget, handle_control_response,
  cancel_pending_request, cancel_all,
}
use claude_agent_sdk_go.Agent.Control.Safe.{
  IsOpen, Next, contains-forget, cancel_pending_request-Next,
}
use claude_agent_sdk_go.Agent.Control.Answers.{View, send_view, cancel_view, respond_view}

module _ (id : String) where
  pub record Sees (m : Manager) (v : View) : Type 0 where
    pub its_channel : get id m.channels ≡ some v.channel
    pub its_place : contains m.pending id ≡ v.pending
    pub the_loop : m.reading ≡ v.reading

  -- The result of a step, and what the request sees of it
  unfoldable pub SeesNext : Option Manager → View → Type 0
  SeesNext o v = (n : Manager) × (o ≡ some n) × Sees n v

  pub same-Sees :
      (m n : Manager) (v : View)
      → m.channels ≡ n.channels
      → m.pending ≡ n.pending
      → m.reading ≡ n.reading
      → Sees m v
      → Sees n v
  same-Sees m n v c p r s = record {
    its_channel = ap (get id) (sym c) ∙ s.its_channel;
    its_place = ap (λ ids. contains ids id) (sym p) ∙ s.its_place;
    the_loop = sym r ∙ s.the_loop;
  }

  try_send-open :
      (r : ControlResult) (c : Channel) → c.closed ≡ false → try_send r c ≡ some (send_view r c)
  unfolding try_send
  try_send-open r c h = ground (arith, h)

  close_channel-open :
      (c : Channel) → c.closed ≡ false → close_channel c ≡ some (record c { closed = true })
  unfolding close_channel
  close_channel-open c h = ground (arith, h)

  put-Sees :
      (j : String) (d : Channel) (m : Manager) (v : View)
      → str_eq j id ≡ false
      → Sees m v
      → Sees (record m { channels = put j d m.channels }) v
  put-Sees j d m v other s = record {
    its_channel = rw (get-put j id d m.channels, other) s.its_channel;
    its_place = s.its_place;
    the_loop = s.the_loop;
  }

  its_open :
      (m : Manager) (v : View) → IsOpen m → Sees m v → v.pending ≡ true → v.channel.closed ≡ false
  its_open m v o s known =
      let (c, q, h) = o.open_channel id (s.its_place ∙ known) in ground (arith, h, q, s.its_channel)

  stays :
      (m : Manager) (v : View) (w : View)
      → (o : Option Manager) → o ≡ some m
      → v ≡ w
      → Sees m v
      → SeesNext o w
  unfolding SeesNext
  stays m v w o e q s = (m, e, subst (Sees m) q s)

  -- A response to the request itself
  respond_self :
      (r : ControlResult) (m : Manager) (v : View)
      → IsOpen m
      → Sees m v
      → SeesNext (handle_control_response id r m) (respond_view r v)
  unfolding handle_control_response SeesNext
  respond_self r m v o s = elim (Bool-cases v.pending) [
    | inr gone ↦
        stays m v _ _ (if_false _ _ _ (s.its_place ∙ gone)) (sym (if_false v.pending _ _ gone)) s
    | inl known ↦
        let sent = try_send-open r v.channel (its_open m v o s known) in
        let w : View = record v { channel = send_view r v.channel } in
        stays (record m { channels = put id (send_view r v.channel) m.channels }) w _ _
          (if_true _ _ _ (s.its_place ∙ known) ∙ rw (s.its_channel, sent) refl)
          (sym (if_true v.pending _ _ known))
          (record {
            its_channel = get-put_self id (send_view r v.channel) m.channels;
            its_place = s.its_place;
            the_loop = s.the_loop;
          })
  ]

  respond-other :
      (j : String) (r : ControlResult) (m : Manager) (v : View)
      → str_eq j id ≡ false
      → IsOpen m
      → Sees m v
      → SeesNext (handle_control_response j r m) v
  unfolding handle_control_response SeesNext
  respond-other j r m v other o s = elim (Bool-cases (contains m.pending j)) [
    | inr gone ↦ (m, if_false _ _ _ gone, s)
    | inl known ↦
        let (c, q, h) = o.open_channel j known in
        (
          record m { channels = put j (send_view r c) m.channels },
          if_true _ _ _ known ∙ rw (q, try_send-open r c h) refl,
          put-Sees j (send_view r c) m v other s,
        )
  ]

  cancel_self :
      (m : Manager) (v : View)
      → IsOpen m
      → Sees m v
      → SeesNext (cancel_pending_request id m) (cancel_view v)
  unfolding cancel_pending_request SeesNext
  cancel_self m v o s = elim (Bool-cases v.pending) [
    | inr gone ↦
        stays m v _ _ (if_false _ _ _ (s.its_place ∙ gone)) (sym (if_false v.pending _ _ gone)) s
    | inl known ↦
        let shut = close_channel-open v.channel (its_open m v o s known) in
        let d : Channel = record v.channel { closed = true } in
        let w : View = record v { channel = d; pending = false } in
        stays (record m { channels = put id d m.channels; pending = forget id m.pending }) w _ _
          (if_true _ _ _ (s.its_place ∙ known) ∙ rw (s.its_channel, shut) refl)
          (sym (if_true v.pending _ _ known))
          (record {
            its_channel = get-put_self id d m.channels;
            its_place = rw (contains-forget id id m.pending, eq_refl id) (ground arith);
            the_loop = s.the_loop;
          })
  ]

  pub forget-other :
      (j : String) (ids : List String)
      → str_eq j id ≡ false
      → contains (forget j ids) id ≡ contains ids id
  forget-other j ids other = ground (arith, contains-forget j id ids)

  cancel-other :
      (j : String) (m : Manager) (v : View)
      → str_eq j id ≡ false
      → IsOpen m
      → Sees m v
      → SeesNext (cancel_pending_request j m) v
  unfolding cancel_pending_request SeesNext
  cancel-other j m v other o s = elim (Bool-cases (contains m.pending j)) [
    | inr gone ↦ (m, if_false _ _ _ gone, s)
    | inl known ↦
        let (c, q, h) = o.open_channel j known in
        let d : Channel = record c { closed = true } in
        (
          record m { channels = put j d m.channels; pending = forget j m.pending },
          if_true _ _ _ known ∙ rw (q, close_channel-open c h) refl,
          record {
            its_channel = rw (get-put j id d m.channels, other) s.its_channel;
            its_place = forget-other j m.pending other ∙ s.its_place;
            the_loop = s.the_loop;
          },
        )
  ]

  pub respond-one :
      (j : String) (r : ControlResult) (m : Manager) (v : View)
      → IsOpen m
      → Sees m v
      → SeesNext (handle_control_response j r m) (if str_eq j id then respond_view r v else v)
  respond-one j r m v o s = elim (Bool-cases (str_eq j id)) [
    | inr other ↦
        subst (SeesNext (handle_control_response j r m)) (sym (if_false _ _ _ other))
          (respond-other j r m v other o s)
    | inl same ↦ subst (SeesNext (handle_control_response j r m)) (sym (if_true _ _ _ same)) (
        subst (λ k. SeesNext (handle_control_response k r m) (respond_view r v))
          (sym ((eq_iff j id).0 same)) (respond_self r m v o s))
  ]

  pub cancel-one :
      (j : String) (m : Manager) (v : View)
      → IsOpen m
      → Sees m v
      → SeesNext (cancel_pending_request j m) (if str_eq j id then cancel_view v else v)
  cancel-one j m v o s = elim (Bool-cases (str_eq j id)) [
    | inr other ↦
        subst (SeesNext (cancel_pending_request j m)) (sym (if_false _ _ _ other))
          (cancel-other j m v other o s)
    | inl same ↦ subst (SeesNext (cancel_pending_request j m)) (sym (if_true _ _ _ same)) (
        subst (λ k. SeesNext (cancel_pending_request k m) (cancel_view v))
          (sym ((eq_iff j id).0 same)) (cancel_self m v o s))
  ]

  pub reached-IsOpen : (o : Option Manager) (n : Manager) → Next o → o ≡ some n → IsOpen n
  unfolding Next
  reached-IsOpen o n (k, e, p) f =
      let same : k ≡ n = ap (λ x. elim x [ none ↦ k | some y ↦ y ]) (sym e ∙ f) in
      subst IsOpen same p

  cancel_again :
      (a b : Bool) (v : View)
      → (if b
          then cancel_view (if a then cancel_view v else v)
          else (if a then cancel_view v else v))
        ≡ (if a || b then cancel_view v else v)
  cancel_again a b v = ground arith

  pub cancel_all-Sees :
      (ids : List String) (m : Manager) (v : View)
      → IsOpen m
      → Sees m v
      → SeesNext (cancel_all ids m) (if contains ids id then cancel_view v else v)
  unfolding cancel_all SeesNext
  cancel_all-Sees [] m v o s = (m, refl, s)
  cancel_all-Sees (j ∷ ids) m v o s =
      let (n, e, t) = cancel-one j m v o s in
      let p = reached-IsOpen _ n (cancel_pending_request-Next j m o) e in
      let (k, f, u) = cancel_all-Sees ids n _ p t in
      (k, rw (e, cancel_all) f, subst (Sees k) (cancel_again (str_eq j id) (contains ids id) v) u)
