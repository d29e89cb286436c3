-- ===== src/Gt02/Handler/Family.antt =====
-- internal/protocol/gt02/handler.go: the session's family is left to the server.
use tallerp_telemetry.Base.{◌≡◌, refl, ◌==◌, either_side}
use tallerp_telemetry.Telemetry.{Time}
use tallerp_telemetry.Session.{SessionContext, Handled}
use tallerp_telemetry.Session.Reports.{parsed-session}
use tallerp_telemetry.Gt02.Handler.{handle_gt02}
use tallerp_telemetry.Gt06.Decoder.{GtFrame}

pub handle_gt02-family :
    (frame : GtFrame) (session : SessionContext) (now : Time)
    → (handle_gt02 frame session now).0.family ≡ session.family
unfolding handle_gt02
handle_gt02-family frame session now =
    let Kept : SessionContext → Type 0 = λ s. s.family ≡ session.family in
    let Same : SessionContext × Handled → Type 0 = λ r. Kept r.0 in
    either_side Same (frame.protocol_number == 0x01)
      (λ _. parsed-session Kept session _ _ refl (λ packet. refl))
      (λ _.
        either_side Same (frame.protocol_number == 0x31)
          (λ _. parsed-session Kept session _ _ refl (λ packet. refl))
          (λ _.
            either_side Same (frame.protocol_number == 0x13)
              (λ _. parsed-session Kept session _ _ refl (λ packet. refl))
              (λ _.
                either_side Same (frame.protocol_number == 0x32)
                  (λ _. parsed-session Kept session _ _ refl (λ packet. refl))
                  (λ _.
                    either_side Same (frame.protocol_number == 0x34)
                      (λ _. parsed-session Kept session _ _ refl (λ packet. refl))
                      (λ _.
                        either_side Same (frame.protocol_number == 0x33)
                          (λ _. parsed-session Kept session _ _ refl (λ packet. refl))
                          (λ _.
                            either_side Same (frame.protocol_number == 0x94)
                              (λ _. parsed-session Kept session _ _ refl (λ packet. refl))
                              (λ _.
                                either_side Same (frame.protocol_number == 0x21)
                                  (λ _. parsed-session Kept session _ _ refl (λ packet. refl))
                                  (λ _. refl))))))))
