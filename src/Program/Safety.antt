-- ===== src/Program/Safety.antt =====
-- What holds in every state that a program reaches from the client that it builds.
use danube_py.Prelude.{
  true, sym, ℕ, String, false, none, some, List, All-get_elem?, get_elem?, ◌≡◌, ap, ◌∙◌, ◌⊎◌,
}
use danube_py.Errors.{ok}
use danube_py.Exec.{pure, ◌>>◌}
use danube_py.Env.{Env, ChannelView}
use danube_py.Env.Api.{StreamMessage}
use danube_py.Client.{Client, RpcConnection}
use danube_py.ClientBuilder.{ClientBuilder, with_token, build}
use danube_py.ClientBuilder.Guarded.{IsChained, chained-IsGuarded, guarded_sends_no_token}
use danube_py.Connection.{get_connection, strip_scheme}
use danube_py.Connection.Growth.{get_connection-Grows, get_connection_stable}
use danube_py.Connection.Opened.{get_connection_channel}
use danube_py.Auth.{auth_metadata, attach_token_if_needed}
use danube_py.Auth.Token.{attach_token_static}
use danube_py.TopicConsumer.{TopicConsumer}
use danube_py.TopicConsumer.Receive.{send_ack}
use danube_py.Consumer.Dict.{find_entry}
use danube_py.Consumer.Methods.{on_member, ack}
use danube_py.Consumer.Methods.Ack.{ack_reaches_topic}
use danube_py.Growth.Group.{IsBounded}
use danube_py.Program.{Member, Program, group_of, builder_of, reconfigured, begin, Reach}
use danube_py.Program.Growth.{Reach-Extends}
use danube_py.Program.Settings.{
  may_be, may_be_lem, may_be_now, AreSettled, Reach-IsGuarded, Reach-AreSettled,
}
use danube_py.Program.Order.{IsOrderly, Reach-IsOrderly}

module _ {E : Env} where
  -- A connection that a program has used once is used ever after: in every state that the program
  -- reaches from there, `get_connection` with the same addresses returns the same connection, opens no
  -- channel and changes nothing. The builder of the client may be called in between.
  pub connection_stays :
      (b a : String) (s t : Program E) {conn : RpcConnection E} {c : Client E}
      → get_connection b a s.client ≡ (ok conn, c)
      → Reach (record s { client = c }) t
      → get_connection b a t.client ≡ (ok conn, t.client)
  connection_stays b a s t h r = get_connection_stable b a s.client t.client h (Reach-Extends r)

  -- If a program builds its client by any chain of the builder's calls, then in every state that it
  -- reaches, also after further calls of the builder, in which the settings of the client do not ask
  -- for TLS, no call of the client carries a token, and none is asked for.
  pub program_sends_no_token :
      (b : ClientBuilder E) (w : E.World) (t : Program E) (addr : String)
      → IsChained b
      → Reach (begin (build b w)) t
      → t.client.manager.options.use_tls ≡ false
      → attach_token_if_needed addr t.client ≡ (ok none, t.client)
  unfolding build
  program_sends_no_token b w t addr h r plain =
      guarded_sends_no_token t.client addr (Reach-IsGuarded r (chained-IsGuarded b h)) plain

  settled :
      (V : ChannelView E) (b : ClientBuilder E) (w : E.World)
      → AreSettled V b.options.use_tls (build b w)
  unfolding build
  settled V b w = record { kept = λ h. h; opened = tt }

  -- In every state that a program reaches from the client that it built, also after further calls of
  -- the builder, a connection that `get_connection` returns, an old or a new one, has a channel to the
  -- address asked for, without its scheme. A channel with credentials means that the settings ask for
  -- TLS; and while they ask for TLS exactly if they did when the client was built, the channel has
  -- credentials exactly if they do.
  pub program_channels :
      (V : ChannelView E) (b : ClientBuilder E) (w : E.World) (t : Program E) (broker addr : String)
      {conn : RpcConnection E} {c : Client E}
      → Reach (begin (build b w)) t
      → get_connection broker addr t.client ≡ (ok conn, c)
      → let now = t.client.manager.options.use_tls in
        let start = b.options.use_tls in
        (V.target conn.channel ≡ strip_scheme addr)
        × (V.is_secure conn.channel ≡ true → now ≡ true)
        × (now ≡ start → V.is_secure conn.channel ≡ start)
  program_channels V b w t broker addr r h =
      let start = b.options.use_tls in
      let now = t.client.manager.options.use_tls in
      let a = Reach-AreSettled V start r (settled V b w) in
      let (target, may) =
        get_connection_channel V (λ x. may_be start now x ≡ true) broker addr t.client
          (may_be_now start now a.kept) a.opened h in
      let (secure, same) = may_be_lem start now _ a.kept may in (target, secure, same)

  -- The builder shares its options with the client that it has built. If `with_token` is called after
  -- `build` on the builder of a client without TLS, then the calls of the client carry the token from
  -- then on, also those over a connection that it has already, which stays in use and has a channel
  -- without credentials.
  pub late_token_over_plain_channel :
      (V : ChannelView E) (b : ClientBuilder E) (w : E.World) (t : Program E)
      (broker addr uri token : String) {conn : RpcConnection E} {c : Client E}
      → IsChained b
      → b.options.use_tls ≡ false
      → Reach (begin (build b w)) t
      → t.client.manager.options.use_tls ≡ false
      → get_connection broker addr t.client ≡ (ok conn, c)
      → let d = reconfigured (with_token token (builder_of uri c)) c.world c in
        (attach_token_if_needed addr d ≡ (ok (auth_metadata token ""), d))
        × (get_connection broker addr d ≡ (ok conn, d))
        × (V.is_secure conn.channel ≡ false)
  unfolding with_token build
  late_token_over_plain_channel V b w t broker addr uri token {conn} {c} h plain r off e =
      let g = Reach-IsGuarded r (chained-IsGuarded b h) in
      let grown = (get_connection-Grows broker addr).at t.client in
      let same : c.manager.options ≡ t.client.manager.options =
        ap (λ x. x.1.manager.options) (sym e) ∙ grown.options in
      let d = reconfigured (with_token token (builder_of uri c)) c.world c in
      (
        attach_token_static addr d (ap (λ o. o.token_supplier) same ∙ g.supplier off)
            ∙ ap (λ i. (ok (auth_metadata token i), d))
                (ap (λ o. o.internal_broker) same ∙ g.internal),
        get_connection_stable broker addr t.client d e (λ k x y. y),
        (program_channels V b w t broker addr r e).2 (off ∙ sym plain) ∙ plain,
      )

  -- In every state that a program reaches from a client that it has built, no queue of a consumer holds
  -- more than 100 messages, whichever tasks have put messages there and whenever its user has taken one.
  pub queues_stay-IsBounded :
      (c : Client E) (t : Program E) (i j : ℕ) (m : Member E) (q : List StreamMessage)
      → Reach (begin c) t
      → get_elem? t.consumers i ≡ some m
      → get_elem? m.queues j ≡ some q
      → IsBounded q
  queues_stay-IsBounded c t i j m q r e f =
      All-get_elem? IsBounded m.queues j
        (All-get_elem? IsOrderly t.consumers i (Reach-IsOrderly r tt) e).queues f

  -- In every state that a program reaches from a client that it has built, an acknowledgement goes to
  -- the topic consumer of the message's own topic, with the message's ids and the consumer's
  -- subscription; for a topic that the consumer does not have nothing happens.
  pub acks_stay_right :
      (c : Client E) (t : Program E) (i : ℕ) (m : Member E) (message : StreamMessage)
      → Reach (begin c) t
      → get_elem? t.consumers i ≡ some m
      → let topic = message.msg_id.topic_name in
        let g = group_of m t.client in
        ((find_entry topic m.this.consumers ≡ none) × (ack message g ≡ (ok tt, g)))
        ⊎ ((j : ℕ) × (tc : TopicConsumer E) × (get_elem? m.topic_consumers j ≡ some tc)
            × (tc.topic_name ≡ topic)
            × (ack message g
                ≡ (on_member j tc (send_ack message.request_id message.msg_id m.this.subscription)
                      >> pure tt)
                    g))
  acks_stay_right c t i m message r e =
      let o = All-get_elem? IsOrderly t.consumers i (Reach-IsOrderly r tt) e in
      ack_reaches_topic message (group_of m t.client) (record { keyed = o.keyed })
