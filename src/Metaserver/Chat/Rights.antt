-- ===== src/Metaserver/Chat/Rights.antt =====
-- wlms/client.go: what a kick does.
