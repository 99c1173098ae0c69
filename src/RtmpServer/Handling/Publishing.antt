-- ===== src/RtmpServer/Handling/Publishing.antt =====
-- How a connection comes to publish: `rtmp_message_parse` of
-- src/modules/rtmp_server/rtmp_server.c.
use strero.Prelude.{
  ◌≡◌, refl, sym, ap, subst, ◌∙◌, ◌⊎◌, inl, inr, Bool, true, false, ◌&&◌, Option, none, some,
  map-some_inv, [], leb, ◌==◌, ==_iff, if◌then◌else◌, Bytes, codes, str_eq, str_eq_iff,
}
use strero.RtmpServer.{Message, Connection, Wire}
use strero.RtmpServer.Socket.{Outcome}
use strero.RtmpServer.Commands.{Command, rtmp_command_parse}
use strero.RtmpServer.Sending.{Sent}
use strero.RtmpServer.Handling.{
  copy_256, first_text, enter_app, Handled, reply, handle_publish, handle_play, rtmp_command_handle,
  handle_parsed, rtmp_message_parse,
}

-- A command "publish" with this string as its first argument.
abbrev pub Publishes : Command → Bytes → Type 0
Publishes command key =
    (command.command_name ≡ codes "publish") × (first_text command.arguments ≡ some key)

-- It publishes under a name and did not before, or its publishing goes on.
abbrev Explained : Connection → Command → Connection → Type 0
Explained conn command conn' =
    conn'.publishing ≡ true
    → (conn.publishing ≡ true)
      ⊎ ((key : Bytes) × Publishes command key × (conn'.stream_key ≡ copy_256 key))

module _ {W : Type 0} (wire : Wire W) (conn : Connection) (command : Command) where
  -- Whatever this call leaves is explained.
  abbrev Explains : Handled W → Type 0
  Explains handled =
      (conn' : Connection) (o : Outcome (Unit {0}) × W)
      → handled ≡ some (conn', o)
      → Explained conn command conn'

  Explains-if :
      (test : Bool) (x y : Handled W)
      → (test ≡ true → Explains x)
      → Explains y
      → Explains (if test then x else y)
  Explains-if true x y yes_case no_case = yes_case refl
  Explains-if false x y yes_case no_case = no_case

  Explains-reply :
      (conn' : Connection) (sent : Sent W)
      → Explained conn command conn'
      → Explains (reply conn' sent)
  unfolding reply
  Explains-reply conn' sent explained conn'' o e =
      let (_, _, same) = map-some_inv _ sent (conn'', o) e in
      subst (Explained conn command) (ap (λ (p : Connection × (Outcome (Unit {0}) × W)). p.0) same)
        explained

  Explains-some :
      (conn' : Connection) (o : Outcome (Unit {0}) × W)
      → Explained conn command conn'
      → Explains (some (conn', o))
  Explains-some conn' o explained conn'' o' e =
      let same : conn' ≡ conn'' = cc in subst (Explained conn command) same explained

  Explains-publish :
      (key : Option Bytes) (w : W)
      → command.command_name ≡ codes "publish"
      → first_text command.arguments ≡ key
      → Explains (handle_publish wire conn key w)
  unfolding handle_publish
  Explains-publish none w named first = Explains-reply conn _ inl
  Explains-publish (some key) w named first =
      Explains-reply _ _ (λ _. inr (key, (named, first), refl))

  Explains-play : (key : Option Bytes) (w : W) → Explains (handle_play wire conn key w)
  unfolding handle_play
  Explains-play none w = Explains-reply conn _ inl
  Explains-play (some key) w = Explains-reply _ _ inl

  enter_app-publishing : (app : Option Bytes) → Explained conn command (enter_app app conn)
  unfolding enter_app
  enter_app-publishing none = inl
  enter_app-publishing (some app) = inl

  unpublished : Explained conn command (record conn { publishing = false; stream_key = [] })
  unpublished off = cc

  Explains-command : (w : W) → Explains (rtmp_command_handle wire conn command w)
  unfolding rtmp_command_handle
  Explains-command w =
      Explains-if (str_eq command.command_name (codes "connect")) _ _
        (λ _. Explains-reply _ _ (enter_app-publishing _))
        (Explains-if (str_eq command.command_name (codes "createStream")) _ _
          (λ _. Explains-reply conn _ inl)
          (Explains-if (str_eq command.command_name (codes "publish")) _ _
            (λ named. Explains-publish _ w ((str_eq_iff _ _).0 named) refl)
            (Explains-if (str_eq command.command_name (codes "play")) _ _ (λ _. Explains-play _ w)
              (Explains-if (str_eq command.command_name (codes "deleteStream")) _ _
                (λ _. Explains-some _ _ unpublished)
                (Explains-if (str_eq command.command_name (codes "close")) _ _
                  (λ _. Explains-some _ _ inl) (Explains-some conn _ inl))))))

module _ {W : Type 0} (wire : Wire W) (conn : Connection) (m : Message)
    (before : conn.publishing ≡ false) where
  -- The message told this connection to publish.
  abbrev Told : Connection → Type 0
  Told conn' =
      (command : Command) × (key : Bytes) × (m.header.message_type_id ≡ 20)
      × (rtmp_command_parse m.payload ≡ some command)
      × Publishes command key
      × (conn'.stream_key ≡ copy_256 key)

  abbrev Tells : Option (Connection × W) → Type 0
  Tells result =
      (conn' : Connection) (w' : W)
      → result ≡ some (conn', w')
      → conn'.publishing ≡ true
      → Told conn'

  Tells-if :
      (test : Bool) (x y : Option (Connection × W))
      → (test ≡ true → Tells x)
      → Tells y
      → Tells (if test then x else y)
  Tells-if true x y yes_case no_case = yes_case refl
  Tells-if false x y yes_case no_case = no_case

  Tells-some : (c : Connection) (w : W) → c.publishing ≡ false → Tells (some (c, w))
  Tells-some c w off conn' w' e on =
      let same : c ≡ conn' = cc in
      let both : true ≡ false = sym on ∙ ap (λ (x : Connection). x.publishing) (sym same) ∙ off in
      cc

  Tells-command :
      (command : Command) (w : W)
      → m.header.message_type_id ≡ 20
      → rtmp_command_parse m.payload ≡ some command
      → Tells (handle_parsed wire conn (some command) w)
  unfolding handle_parsed
  Tells-command command w type parsed conn' w' e on =
      let (r, run, same) = map-some_inv _ (rtmp_command_handle wire conn command w) (conn', w') e in
      let left : r.0 ≡ conn' = ap (λ (p : Connection × W). p.0) same in
      elim (subst (Explained conn command) left (Explains-command wire conn command w r.0 r.1 run)
        on) [
          | inl already ↦ (let both : true ≡ false = sym already ∙ before in cc)
          | inr (key, told, kept) ↦ (command, key, type, parsed, told, kept)
        ]

  Tells-parsed :
      (parsed : Option Command) (w : W)
      → m.header.message_type_id ≡ 20
      → rtmp_command_parse m.payload ≡ parsed
      → Tells (handle_parsed wire conn parsed w)
  unfolding handle_parsed
  Tells-parsed none w type e = Tells-some conn w before
  Tells-parsed (some command) w type e = Tells-command command w type e

  Tells-message : (w : W) → Tells (rtmp_message_parse wire conn m w)
  unfolding rtmp_message_parse
  Tells-message w =
      Tells-if (m.header.message_type_id == 1 && leb 4 m.header.message_length) _ _
        (λ _. Tells-some _ _ before)
        (Tells-if (m.header.message_type_id == 5 && leb 4 m.header.message_length) _ _
          (λ _. Tells-some _ _ before)
          (Tells-if (m.header.message_type_id == 20) _ _
            (λ type. Tells-parsed _ w ((==_iff _ 20).0 type) refl) (Tells-some conn w before)))

module _ {W : Type 0} (wire : Wire W) where
  -- Whatever the state of the connection is (also before `connect`): where it publishes after a
  -- message and did not before, the message was an AMF0 command, it could be parsed as "publish"
  -- with a string as its first argument, and the connection's stream key is this string, cut to
  -- 255 bytes.
  pub rtmp_message_parse-publishing :
      (conn conn' : Connection) (m : Message) (w w' : W)
      → rtmp_message_parse wire conn m w ≡ some (conn', w')
      → conn.publishing ≡ false
      → conn'.publishing ≡ true
      → (command : Command) × (key : Bytes) × (m.header.message_type_id ≡ 20)
        × (rtmp_command_parse m.payload ≡ some command)
        × Publishes command key
        × (conn'.stream_key ≡ copy_256 key)
  rtmp_message_parse-publishing conn conn' m w w' e before =
      Tells-message wire conn m before w conn' w' e
