-- ===== src/Wallet/Plan/Injective.antt =====
-- The commitment of crates/zalkanes-wallet/src/plan.rs determines the plan.
use zalkanes.Base.{◌≡◌, ◌<◌, refl, ap, [], ◌++◌, All}
use zalkanes.Wallet.Plan.{Commitment, domain, commit_bytes}
use zalkanes.Wallet.Plan.Encoding.{
  Is32Long, IsU16Long, byte-Splits, to_le-Splits, same_length, hash-Splits, counted-Splits, both,
  listed-Splits,
}
use zalkanes.Wallet.Plan.Elements.{
  IsInput, IsAnchor, IsOutput, IsChange, four_bytes_lem, eight_bytes_lem, input_bytes-Splits,
  anchor_bytes-Splits, output_bytes-Splits, change_bytes-Splits,
}

-- The widths of the arguments of `commit_plan`, and lists and byte strings shorter than 2^16.
pub record IsWithin (c : Commitment) : Type 0 where
  pub tip_height : c.chain_tip_height < 4294967296
  pub tip_hash : Is32Long c.chain_tip_hash
  pub target : c.target_height < 4294967296
  pub branch : c.branch_id < 4294967296
  pub expiry : c.expiry_height < 4294967296
  pub inputs : IsU16Long c.inputs × All IsInput c.inputs
  pub anchors : IsU16Long c.anchors × All IsAnchor c.anchors
  pub outputs : IsU16Long c.transparent_outputs × All IsOutput c.transparent_outputs
  pub change : IsChange c.shielded_change
  pub fee : c.fee < 18446744073709551616
  pub payload : IsU16Long c.zalk_payload

-- Two plans whose fields are within their widths, with lists and byte strings shorter than 2^16, are
-- equal when the bytes that are hashed for them are equal.
pub commit_bytes-injective :
    (c d : Commitment) → IsWithin c → IsWithin d → commit_bytes c ≡ commit_bytes d → c ≡ d
unfolding commit_bytes
commit_bytes-injective c d v w h =
    let (_, h') = same_length domain domain _ _ refl h in
    let (e, _) =
      (both byte-Splits (
          both byte-Splits (
            both byte-Splits (
              both (to_le-Splits 4) (
                both hash-Splits (
                  both (to_le-Splits 4) (
                    both (to_le-Splits 4) (
                      both byte-Splits (
                        both (to_le-Splits 4) (
                          both (listed-Splits input_bytes-Splits) (
                            both (listed-Splits anchor_bytes-Splits) (
                              both (listed-Splits output_bytes-Splits) (
                                both change_bytes-Splits (
                                  both (to_le-Splits 8)
                                    (both counted-Splits byte-Splits))))))))))))))).split
        (
          c.network_id,
          (
            c.protocol_version,
            (
              c.pool,
              (
                c.chain_tip_height,
                (
                  c.chain_tip_hash,
                  (
                    c.target_height,
                    (
                      c.branch_id,
                      (
                        c.tx_version,
                        (
                          c.expiry_height,
                          (
                            c.inputs,
                            (
                              c.anchors,
                              (
                                c.transparent_outputs,
                                (c.shielded_change, (c.fee, (c.zalk_payload, c.kind))),
                              ),
                            ),
                          ),
                        ),
                      ),
                    ),
                  ),
                ),
              ),
            ),
          ),
        )
        (
          d.network_id,
          (
            d.protocol_version,
            (
              d.pool,
              (
                d.chain_tip_height,
                (
                  d.chain_tip_hash,
                  (
                    d.target_height,
                    (
                      d.branch_id,
                      (
                        d.tx_version,
                        (
                          d.expiry_height,
                          (
                            d.inputs,
                            (
                              d.anchors,
                              (
                                d.transparent_outputs,
                                (d.shielded_change, (d.fee, (d.zalk_payload, d.kind))),
                              ),
                            ),
                          ),
                        ),
                      ),
                    ),
                  ),
                ),
              ),
            ),
          ),
        )
        [] []
        (
          tt,
          (
            tt,
            (
              tt,
              (
                four_bytes_lem _ v.tip_height,
                (
                  v.tip_hash,
                  (
                    four_bytes_lem _ v.target,
                    (
                      four_bytes_lem _ v.branch,
                      (
                        tt,
                        (
                          four_bytes_lem _ v.expiry,
                          (
                            v.inputs,
                            (
                              v.anchors,
                              (v.outputs, (v.change, (eight_bytes_lem _ v.fee, (v.payload, tt)))),
                            ),
                          ),
                        ),
                      ),
                    ),
                  ),
                ),
              ),
            ),
          ),
        )
        (
          tt,
          (
            tt,
            (
              tt,
              (
                four_bytes_lem _ w.tip_height,
                (
                  w.tip_hash,
                  (
                    four_bytes_lem _ w.target,
                    (
                      four_bytes_lem _ w.branch,
                      (
                        tt,
                        (
                          four_bytes_lem _ w.expiry,
                          (
                            w.inputs,
                            (
                              w.anchors,
                              (w.outputs, (w.change, (eight_bytes_lem _ w.fee, (w.payload, tt)))),
                            ),
                          ),
                        ),
                      ),
                    ),
                  ),
                ),
              ),
            ),
          ),
        )
        (ap (λ t. t ++ []) h') in
    λ i. record {
      network_id = (e i).0;
      protocol_version = (e i).1.0;
      pool = (e i).1.1.0;
      chain_tip_height = (e i).1.1.1.0;
      chain_tip_hash = (e i).1.1.1.1.0;
      target_height = (e i).1.1.1.1.1.0;
      branch_id = (e i).1.1.1.1.1.1.0;
      tx_version = (e i).1.1.1.1.1.1.1.0;
      expiry_height = (e i).1.1.1.1.1.1.1.1.0;
      inputs = (e i).1.1.1.1.1.1.1.1.1.0;
      anchors = (e i).1.1.1.1.1.1.1.1.1.1.0;
      transparent_outputs = (e i).1.1.1.1.1.1.1.1.1.1.1.0;
      shielded_change = (e i).1.1.1.1.1.1.1.1.1.1.1.1.0;
      fee = (e i).1.1.1.1.1.1.1.1.1.1.1.1.1.0;
      zalk_payload = (e i).1.1.1.1.1.1.1.1.1.1.1.1.1.1.0;
      kind = (e i).1.1.1.1.1.1.1.1.1.1.1.1.1.1.1;
    }
