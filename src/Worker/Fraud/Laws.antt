-- ===== src/Worker/Fraud/Laws.antt =====
-- Laws of the risk rules.
