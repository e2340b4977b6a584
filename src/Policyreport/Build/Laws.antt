-- ===== src/Policyreport/Build/Laws.antt =====
-- What the gate says of the policies, when it passes on a report that was built for them.
